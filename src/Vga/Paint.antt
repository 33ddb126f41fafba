-- ===== src/Vga/Paint.antt =====
-- What a writer may do to video memory, and the changes of cells that respect it.
use eurali_os.Vga.{ScreenCharacter, Geometry, Writer, scroll_up}
use eurali_os.Prelude.{
  ℕ, ◌+◌, ◌-◌, ◌*◌, ◌≤◌, ◌<◌, ◌≡◌, refl, ◌∙◌, ap, arith, if◌then◌else◌, true, false, Bool-cases,
  inl, inr, update,
}
use eurali_os.Vga.Cells.{overwritten, scroll_up_lem, last_row}

abbrev pub Cells : Type 0
Cells = ℕ → ScreenCharacter

module _ (g : Geometry) where
  -- The cursor is on the screen and the buffer has its size.
  pub record Fits (w : Writer) : Type 0 where
    pub at_row : w.row < g.height
    pub at_column : w.column < g.width
    pub whole : w.buffer_len ≡ g.size

  -- The screen shows the buffer.
  abbrev pub Mirrors : Writer → Type 0
  Mirrors w = (p : ℕ) → p < g.size → w.frame p ≡ w.buffer p

  -- What may happen to video memory between two states of a writer.
  pub record Shadows (w w' : Writer) : Type 0 where
    pub same_active : w'.active ≡ w.active
    pub shown : w.active ≡ true → Mirrors w → Mirrors w'
    pub hidden : w.active ≡ false → w'.frame ≡ w.frame
    pub behind : (p : ℕ) → g.size ≤ p → w'.frame p ≡ w.frame p

  pub Shadows-trans : (w w' w'' : Writer) → Shadows w w' → Shadows w' w'' → Shadows w w''
  Shadows-trans w w' w'' s t = record {
    same_active = t.same_active ∙ s.same_active;
    shown = λ on m. t.shown (s.same_active ∙ on) (s.shown on m);
    hidden = λ off. t.hidden (s.same_active ∙ off) ∙ s.hidden off;
    behind = λ p h. t.behind p h ∙ s.behind p h;
  }

  -- A change of cells inside the screen, which reads no other cells.
  pub record IsPaint (paint : Cells → Cells) : Type 0 where
    pub local :
        (x y : Cells)
        → ((q : ℕ) → q < g.size → x q ≡ y q)
        → (p : ℕ) → p < g.size
        → paint x p ≡ paint y p
    pub bounded : (x : Cells) (p : ℕ) → g.size ≤ p → paint x p ≡ x p

  abbrev pub painted : (Cells → Cells) → Writer → Writer
  painted paint w = record w {
    buffer = paint w.buffer;
    frame = if w.active then paint w.frame else w.frame;
  }

  pub painted-Shadows :
      (paint : Cells → Cells) → IsPaint paint → (w : Writer) → Shadows w (painted paint w)
  painted-Shadows paint h w = record {
    same_active = refl;
    shown = λ on m p lt. rw on (h.local w.frame w.buffer m p lt);
    hidden = λ off. rw off refl;
    behind = λ p le. elim (Bool-cases w.active) [
      | inl on ↦ rw on (h.bounded w.frame p le)
      | inr off ↦ rw off refl
    ];
  }

  pub overwritten-IsPaint :
      (first n : ℕ) (c : ScreenCharacter) → first + n ≤ g.size → IsPaint (overwritten first n c)
  overwritten-IsPaint first n c h = record {
    local = λ x y same p lt. ground (arith, same p);
    bounded = λ x p le. ground arith;
  }

  pub update-IsPaint :
      (offset : ℕ) (c : ScreenCharacter) → offset < g.size → IsPaint (λ b. update b offset c)
  update-IsPaint offset c h = record {
    local = λ x y same p lt. ground (arith, same p);
    bounded = λ x p le. ground arith;
  }

  pub scroll_up-IsPaint : (blank : ScreenCharacter) → IsPaint (scroll_up g blank)
  scroll_up-IsPaint blank = record {
    local = λ x y same p lt.
        let total = last_row g in
        let a = scroll_up_lem g blank x p in
        let b = scroll_up_lem g blank y p in let s = same (p + g.width) in ground arith;
    bounded = λ x p le. let total = last_row g in let a = scroll_up_lem g blank x p in ground arith;
  }

  pub offset_lem :
      (row column : ℕ) → row < g.height → column < g.width → row * g.width + column < g.size
  offset_lem row column h k =
      let e = g.size_lem in
      let i : row * g.width + column < g.height * g.width = grind arith in omega arith

  pub row_end : (row : ℕ) → row < g.height → row * g.width + g.width ≤ g.size
  row_end row h =
      let last = offset_lem row (g.width - 1) h (omega (arith, g.several_columns)) in
      omega (arith, g.several_columns)

  -- Nothing that shows was changed.
  pub moved-Shadows :
      (w w' : Writer)
      → w'.active ≡ w.active
      → w'.frame ≡ w.frame
      → w'.buffer ≡ w.buffer
      → Shadows w w'
  moved-Shadows w w' a f b = record {
    same_active = a;
    shown = λ on m p lt. ground (arith, m p);
    hidden = λ off. f;
    behind = λ p le. ap (λ (x : Cells). x p) f;
  }

  -- The result of an operation that cannot fail.
  abbrev pub Keeps : Writer → Writer → Type 0
  Keeps w w' = Fits w' × Shadows w w'
