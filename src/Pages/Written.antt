-- ===== src/Pages/Written.antt =====
-- What `write_stack` writes to the level 1 table of the stacks.
use eurali_os.Prelude.{
  ℕ, zero, suc, ◌+◌, ◌*◌, ◌≤◌, ◌<◌, ◌≡◌, ◌≢◌, ◌⊎◌, refl, sym, subst, ◌∙◌, inl, inr, arith, some,
  Option-cases, true, Bool-cases, ◌==◌, ℕ_discrete, ◌||◌, ==_iff,
}
use eurali_os.Chunks.{Tables, write_entry}
use eurali_os.Pages.{PageOps}
use eurali_os.Pages.Stacks.{write_read_only, write_stack}

module _ {Entry : Type 0} (ops : PageOps Entry) where
  -- The entry maps the frame with the flags.
  abbrev pub Maps : Entry → ℕ → ℕ → Type 0
  Maps e frame flag = (ops.table_ops.addr e ≡ frame) × (ops.flags e ≡ flag)

  pub same_entry :
      (t : Tables Entry) (table ind : ℕ) (e : Entry) (i : ℕ)
      → ind ≡ i
      → (write_entry t table ind e).entries table i ≡ e
  same_entry t table ind e i h = ground arith

  pub other_entry :
      (t : Tables Entry) (table ind : ℕ) (e : Entry) (i : ℕ)
      → ind ≢ i
      → (write_entry t table ind e).entries table i ≡ t.entries table i
  other_entry t table ind e i h = ground arith

  pub other_table :
      (t : Tables Entry) (table ind : ℕ) (e : Entry) (tb i : ℕ)
      → table ≢ tb
      → (write_entry t table ind e).entries tb i ≡ t.entries tb i
  other_table t table ind e tb i h = ground arith

  is_flag :
      (flag : ℕ)
      → flag ≡ ops.table_ops.user_flags ⊎ flag ≡ ops.read_only_flags
      → (flag == ops.table_ops.user_flags || flag == ops.read_only_flags) ≡ true
  is_flag flag (inl e) = rw ((==_iff _ _).1 e) refl
  is_flag flag (inr e) = elim (Bool-cases (flag == ops.table_ops.user_flags)) [
    | inl h ↦ rw h refl
    | inr h ↦ rw (h, (==_iff _ _).1 e) refl
  ]

  -- What the loop over the read-only pages writes.
  record Writes (rounds j n table frame : ℕ) (t t' : Tables Entry) : Type 0 where
    allocator : t'.frame_allocator ≡ t.frame_allocator
    shared :
        (k : ℕ)
        → j ≤ k
        → k < j + rounds
        → Maps (t'.entries table (n * 8 + k)) frame ops.read_only_flags
    before : (i : ℕ) → i < n * 8 + j → t'.entries table i ≡ t.entries table i
    after : (i : ℕ) → n * 8 + j + rounds ≤ i → t'.entries table i ≡ t.entries table i
    elsewhere : (tb i : ℕ) → table ≢ tb → t'.entries tb i ≡ t.entries tb i

  write_read_only-Writes :
      (rounds j n table frame : ℕ) (t t' : Tables Entry)
      → write_read_only ops rounds j n table frame t ≡ some t'
      → Writes rounds j n table frame t t'
  unfolding write_read_only
  write_read_only-Writes zero j n table frame t t' e =
      let same : t ≡ t' = ground arith in
      subst (Writes zero j n table frame t) same (record {
        allocator = refl;
        shared = λ k lo hi. absurd (omega arith);
        before = λ i h. refl;
        after = λ i h. refl;
        elsewhere = λ tb i h. refl;
      })
  write_read_only-Writes (suc rounds) j n table frame t t' e =
      elim (Option-cases
        (ops.table_ops.set_addr (t.entries table (n * 8 + j)) frame ops.read_only_flags)) [
          | inl panics ↦ absurd (ground arith)
          | inr (entry, set) ↦
              (let t₁ = write_entry t table (n * 8 + j) entry in
                let rest : write_read_only ops rounds (j + 1) n table frame t₁ ≡ some t' =
                  ground arith in
                let w = write_read_only-Writes rounds (j + 1) n table frame t₁ t' rest in
                let maps =
                  ops.set_addr-Has (t.entries table (n * 8 + j)) frame ops.read_only_flags entry
                    (is_flag ops.read_only_flags (inr refl)) set in
                record {
                  allocator = w.allocator;
                  shared = λ k lo hi. elim (ℕ_discrete j k) [
                    | yes same ↦
                        subst (λ x. Maps x frame ops.read_only_flags)
                          (sym (
                            w.before (n * 8 + k) (omega arith)
                            ∙ same_entry t table (n * 8 + j) entry (n * 8 + k) (omega arith)))
                          maps
                    | no other ↦ w.shared k (omega arith) (omega arith)
                  ];
                  before = λ i h.
                      w.before i (omega arith)
                      ∙ other_entry t table (n * 8 + j) entry i (λ q. absurd (omega arith));
                  after = λ i h.
                      w.after i (omega arith)
                      ∙ other_entry t table (n * 8 + j) entry i (λ q. absurd (omega arith));
                  elsewhere =
                      λ tb i h. w.elsewhere tb i h ∙ other_table t table (n * 8 + j) entry tb i h;
                })
        ]

  -- A slot with a stack: the first page is a guard, the six after it are read-only and the last is
  -- writable, all with the same frame.
  pub record HasStack (n table frame : ℕ) (t t' : Tables Entry) : Type 0 where
    pub allocator : t'.frame_allocator ≡ t.frame_allocator
    pub shared :
        (k : ℕ) → 1 ≤ k → k < 7 → Maps (t'.entries table (n * 8 + k)) frame ops.read_only_flags
    pub top : Maps (t'.entries table (n * 8 + 7)) frame ops.table_ops.user_flags
    pub outside : (i : ℕ) → (i ≤ n * 8) ⊎ (n * 8 + 8 ≤ i) → t'.entries table i ≡ t.entries table i
    pub elsewhere : (tb i : ℕ) → table ≢ tb → t'.entries tb i ≡ t.entries tb i

  pub write_stack-HasStack :
      (n table frame : ℕ) (t t' : Tables Entry)
      → write_stack ops n table frame t ≡ some t'
      → HasStack n table frame t t'
  unfolding write_stack
  write_stack-HasStack n table frame t t' e =
      elim (Option-cases (write_read_only ops 6 1 n table frame t)) [
        | inl panics ↦ absurd (ground arith)
        | inr (t₁, written) ↦
            elim (Option-cases (
              ops.table_ops.set_addr (t₁.entries table (n * 8 + 7)) frame
                ops.table_ops.user_flags)) [
                  | inl panics ↦ absurd (ground arith)
                  | inr (entry, set) ↦
                      (let t₂ = write_entry t₁ table (n * 8 + 7) entry in
                        let same : t₂ ≡ t' = ground arith in
                        let w = write_read_only-Writes 6 1 n table frame t t₁ written in
                        let maps =
                          ops.set_addr-Has (t₁.entries table (n * 8 + 7)) frame
                            ops.table_ops.user_flags entry
                            (is_flag ops.table_ops.user_flags (inl refl)) set in
                        subst (HasStack n table frame t) same (record {
                          allocator = w.allocator;
                          shared = λ k lo hi.
                              subst (λ x. Maps x frame ops.read_only_flags)
                                (sym (
                                  other_entry t₁ table (n * 8 + 7) entry (n * 8 + k)
                                    (λ q. absurd (omega arith))))
                                (w.shared k lo (omega arith));
                          top =
                              subst (λ x. Maps x frame ops.table_ops.user_flags)
                                (sym (same_entry t₁ table (n * 8 + 7) entry (n * 8 + 7) refl)) maps;
                          outside = λ i side. off t t₁ w entry i side;
                          elsewhere = λ tb i h.
                              other_table t₁ table (n * 8 + 7) entry tb i h ∙ w.elsewhere tb i h;
                        }))
                ]
      ]
    where
      off :
          (t t₁ : Tables Entry)
          → Writes 6 1 n table frame t t₁
          → (entry : Entry) (i : ℕ) → (i ≤ n * 8) ⊎ (n * 8 + 8 ≤ i)
          → (write_entry t₁ table (n * 8 + 7) entry).entries table i ≡ t.entries table i
      off t t₁ w entry i (inl low) =
          other_entry t₁ table (n * 8 + 7) entry i (λ q. absurd (omega arith))
          ∙ w.before i (omega arith)
      off t t₁ w entry i (inr high) =
          other_entry t₁ table (n * 8 + 7) entry i (λ q. absurd (omega arith))
          ∙ w.after i (omega arith)
