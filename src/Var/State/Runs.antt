-- ===== src/Var/State/Runs.antt =====
-- src/var.cpp: any sequence of creations and changes of reference counts keeps the store sound, so that
-- no reference is left dangling.
use enoki_jit.Prelude.{
  ℕ, suc, ◌+◌, ◌-◌, ◌%◌, ◌^◌, ◌<◌, Bool, false, ◌≡◌, refl, sym, subst, ◌∙◌, ◌≢◌, inl, inr, [], some,
  get_elem?, set, arith, Bool-cases, Option-cases,
}
use enoki_jit.Prelude.Result.{ok, ok-injective}
use enoki_jit.RobinMap.{RobinMap}
use enoki_jit.Types.Kind.{is_evaluated}
use enoki_jit.Var.Key.{Variable, VariableKey}
use enoki_jit.Var.Key.Injective.{Fits}
use enoki_jit.Types.{JitBackend}
use enoki_jit.Var.State.{
  Flags, ThreadState, new_state, State, is_unused, put_var, jitc_var, add_ref, jitc_var_inc_ref,
}
use enoki_jit.Var.State.Free.{live_count, free_loop, jitc_var_free, jitc_var_dec_ref}
use enoki_jit.Var.State.New.{prepare, jitc_var_new}
use enoki_jit.Var.State.New.Reuse.{Balanced-congr}
use enoki_jit.Var.State.New.Value.{Sound, more_used, jitc_var_new-Recorded}
use enoki_jit.Var.State.Refs.{total, refs_of, se_refs_of}
use enoki_jit.Var.State.Refs.Count.{less}
use enoki_jit.Var.State.Refs.Loop.{zeros, minus_at, Balanced}
use enoki_jit.Var.State.Refs.Balance.{
  plus_at, more, jitc_var_used, held-jitc_var, jitc_var_dec_ref-Balanced, jitc_var_inc_ref-Balanced,
}
use enoki_jit.Var.State.Store.{Store, Store-congr, counted-Store}
use enoki_jit.Var.State.Frees.{Frees}
use enoki_jit.Var.State.Frees.Loop.{jitc_var_dec_ref-Frees}
use enoki_jit.Var.State.Store.Loop.{free_loop-Store}

module _ {L : RobinMap VariableKey ℕ} where
  Sound-Store : (s : State L) (ext ext_se : ℕ → ℕ) → Sound s ext ext_se → Store s zeros
  Sound-Store s ext ext_se k = record {
    sentinel = k.reusable.sentinel;
    ascends = k.reusable.ascends;
    entries = k.reusable.entries;
    idle = λ i n. absurd (n refl);
    extras = k.reusable.extras;
    owned = λ i x h a z.
        k.owned i x h
          (elim (Bool-cases (is_unused x)) [ inr e ↦ e | inl e ↦ absurd (ground (arith, a e)) ]) z;
    found = λ key i h.
        let p = k.numbered.found key i h in
        record {
          nonzero = p.nonzero;
          entry = p.entry;
          here = p.here;
          active = λ u. absurd (ground (arith, p.used));
          same_key = p.same_key;
          traced = p.traced;
          fits = p.fits;
        };
  }

  Store-Sound :
      (s : State L) (ext ext_se : ℕ → ℕ)
      → Balanced s ext ext_se
      → Store s zeros
      → Sound s ext ext_se
  Store-Sound s ext ext_se b k = record {
    counts = b;
    reusable = record {
      sentinel = k.sentinel;
      ascends = k.ascends;
      entries = k.entries;
      extras = k.extras;
    };
    numbered = record {
      found = λ key i h.
          let p = k.found key i h in
          record {
            nonzero = p.nonzero;
            entry = p.entry;
            here = p.here;
            used = elim (Bool-cases (is_unused p.entry)) [
              | inr e ↦ e
              | inl e ↦ absurd (ground (arith, p.active e))
            ];
            same_key = p.same_key;
            traced = p.traced;
            fits = p.fits;
          };
    };
    owned = λ i x h u z. k.owned i x h (λ e. absurd (ground arith)) z;
  }

  module _ (ext ext_se : ℕ → ℕ) (s : State L) (k : Sound s ext ext_se) (i : ℕ) (n : i ≢ 0) where
    dec_ref-Store : (s' : State L) → 0 < ext i → jitc_var_dec_ref s i ≡ ok s' → Store s' zeros
    unfolding jitc_var_dec_ref jitc_var_free
    dec_ref-Store s' pos h = elim (Option-cases (get_elem? s.variables i)) [
      | inl e ↦ absurd (ground (arith, k.counts.refs i n))
      | inr (v, here) ↦
          let counted : 0 < v.ref_count = ground (arith, k.counts.refs i n) in
          let used : is_unused v ≡ false = ground arith in
          let found = jitc_var_used ext ext_se s k.counts i v n here used in
          let after =
            counted-Store s zeros (Sound-Store s ext ext_se k) i v n here used (v.ref_count - 1)
              v.ref_count_se in
          elim (Bool-cases (is_unused (less v))) [
            | inr u ↦
                let result : put_var s i (less v) ≡ s' = ground (arith, found) in
                subst (λ (t : State L). Store t zeros) result
                  (Store-congr (put_var s i (less v)) _ _ (λ j. ground arith) after)
            | inl u ↦
                let fuel = suc (live_count (set s.variables i (less v))) in
                let run : free_loop fuel i [] (put_var s i (less v)) ≡ ok s' =
                  ground (arith, found) in
                free_loop-Store fuel i [] (put_var s i (less v)) s'
                  (Store-congr (put_var s i (less v)) _ _ (λ j. ground arith) after) run
          ]
    ]

    -- In a sound store, dropping an outside reference succeeds and leaves a sound store: the counts are
    -- right, each index in the free list stands there once and is unused, and no value is found at an
    -- unused index. Every variable that has lost its last reference is freed: its index and its extra
    -- record are in the free lists, and its data went to jitc_free if it was evaluated, unless that is
    -- to stay.
    pub jitc_var_dec_ref-Sound :
        0 < ext i
        → (s' : State L) × (jitc_var_dec_ref s i ≡ ok s')
          × Sound s' (minus_at i ext) ext_se
          × Frees zeros s s'
    jitc_var_dec_ref-Sound pos =
        let (s', run, b) = jitc_var_dec_ref-Balanced ext ext_se s k.counts i n pos in
        (
          s',
          run,
          Store-Sound s' (minus_at i ext) ext_se b (dec_ref-Store s' pos run),
          jitc_var_dec_ref-Frees s i s' run,
        )

    inc_ref-runs :
        (v : Variable) → jitc_var s i ≡ ok v → jitc_var_inc_ref s i ≡ ok (put_var s i (more v))
    unfolding jitc_var_inc_ref add_ref
    inc_ref-runs v found = ground (arith, found)

    -- In a sound store, adding an outside reference to a variable that `jitc_var` finds succeeds and leaves a
    -- sound store, if the count does not overflow.
    pub jitc_var_inc_ref-Sound :
        (v : Variable)
        → jitc_var s i ≡ ok v
        → v.ref_count + 1 < 2 ^ 32
        → (s' : State L) × (jitc_var_inc_ref s i ≡ ok s') × Sound s' (plus_at i ext) ext_se
    unfolding jitc_var
    jitc_var_inc_ref-Sound v found small =
        let (s', run, b) = jitc_var_inc_ref-Balanced ext ext_se s k.counts i v n found small in
        let used : is_unused v ≡ false = ground arith in
        let here : get_elem? s.variables i ≡ some v = ground arith in
        let after =
          counted-Store s zeros (Sound-Store s ext ext_se k) i v n here used
            ((v.ref_count + 1) % 2 ^ 32) v.ref_count_se in
        let result : put_var s i (more v) ≡ s' = ground (arith, inc_ref-runs v found) in
        let still : is_unused (more v) ≡ false = more_used v small in
        (
          s',
          run,
          Store-Sound s' (plus_at i ext) ext_se b (
              subst (λ (t : State L). Store t zeros) result
                (Store-congr (put_var s i (more v)) _ _ (λ j. ground arith) after)),
        )

  -- One call of a client that holds `ext` references and `ext_se` side-effect references, and that
  -- keeps to its obligations: it gives up only what it holds, and it holds the operands of what it
  -- creates, whose references then pass to the new variable.
  pub data Step (s : State L) (ext ext_se : ℕ → ℕ) : State L → (ℕ → ℕ) → (ℕ → ℕ) → Type 0 where
    inc_ref :
        (s' : State L) (i : ℕ) (v : Variable)
        → i ≢ 0
        → jitc_var s i ≡ ok v
        → v.ref_count + 1 < 2 ^ 32
        → jitc_var_inc_ref s i ≡ ok s'
        → Step s ext ext_se s' (plus_at i ext) ext_se
    dec_ref :
        (s' : State L) (i : ℕ)
        → i ≢ 0
        → 0 < ext i
        → jitc_var_dec_ref s i ≡ ok s'
        → Step s ext ext_se s' (minus_at i ext) ext_se
    new :
        (s' : State L) (i : ℕ) (v : Variable) (disable_lvn : Bool) (f g : ℕ → ℕ)
        → ((j : ℕ) → j ≢ 0 → ext j ≡ f j + refs_of j v)
        → ((j : ℕ) → j ≢ 0 → ext_se j ≡ g j + se_refs_of j v)
        → v.ref_count ≡ 0
        → v.ref_count_se ≡ 0
        → v.extra ≡ 0
        → is_evaluated v.kind ≡ false
        → Fits (prepare s v)
        → ((j : ℕ) (x : Variable) → get_elem? s.variables j ≡ some x → x.ref_count + 1 < 2 ^ 32)
        → jitc_var_new s v disable_lvn ≡ ok (i, s')
        → Step s ext ext_se s' (plus_at i f) g

  -- Any number of calls, the last one last.
  pub data Run (s : State L) (ext ext_se : ℕ → ℕ) : State L → (ℕ → ℕ) → (ℕ → ℕ) → Type 0 where
    done : Run s ext ext_se s ext ext_se
    call :
        (t u : State L) (e e_se f f_se : ℕ → ℕ)
        → Run s ext ext_se t e e_se
        → Step t e e_se u f f_se
        → Run s ext ext_se u f f_se

  Sound-congr :
      (s : State L) (f f' g g' : ℕ → ℕ)
      → ((j : ℕ) → j ≢ 0 → f j ≡ f' j)
      → ((j : ℕ) → j ≢ 0 → g j ≡ g' j)
      → Sound s f g
      → Sound s f' g'
  Sound-congr s f f' g g' p q k = record {
    counts = Balanced-congr s f f' g g' p q k.counts;
    reusable = k.reusable;
    numbered = k.numbered;
    owned = k.owned;
  }

  Step-Sound :
      (s : State L) (ext ext_se : ℕ → ℕ) {t : State L} {e e_se : ℕ → ℕ}
      → Sound s ext ext_se
      → Step s ext ext_se t e e_se
      → Sound t e e_se
  Step-Sound s ext ext_se k (inc_ref s' i v n found small run) =
      let (t, r, q) = jitc_var_inc_ref-Sound ext ext_se s k i n v found small in
      subst (λ (u : State L). Sound u (plus_at i ext) ext_se) (ok-injective t s' (sym r ∙ run)) q
  Step-Sound s ext ext_se k (dec_ref s' i n pos run) =
      let (t, r, q, f) = jitc_var_dec_ref-Sound ext ext_se s k i n pos in
      subst (λ (u : State L). Sound u (minus_at i ext) ext_se) (ok-injective t s' (sym r ∙ run)) q
  Step-Sound s ext ext_se k (new s' i v disable_lvn f g p q r0 r1 z t fits small run) =
      let (j, u, r, rec) =
        jitc_var_new-Recorded s v disable_lvn f g r0 r1 z t fits small
          (Sound-congr s ext _ ext_se _ p q k) in
      let same : (j, u) ≡ (i, s') = ok-injective (j, u) (i, s') (sym r ∙ run) in
      subst (λ (x : ℕ × State L). Sound x.1 (plus_at x.0 f) g) same rec.sound

  Run-Sound :
      (s : State L) (ext ext_se : ℕ → ℕ) {t : State L} {e e_se : ℕ → ℕ}
      → Sound s ext ext_se
      → Run s ext ext_se t e e_se
      → Sound t e e_se
  Run-Sound s ext ext_se k done = k
  Run-Sound s ext ext_se k (call t u e e_se f f_se run step) =
      Step-Sound t e e_se (Run-Sound s ext ext_se k run) step

  new_state-Sound :
      (flags : Flags) (cuda llvm : ThreadState) (backend : JitBackend)
      → Sound (new_state L flags cuda llvm backend) zeros zeros
  unfolding new_state total
  new_state-Sound flags cuda llvm backend = record {
    counts = record { refs = λ j n. ground arith; se_refs = λ j n. ground arith; unused = tt };
    reusable = record {
      sentinel = omega arith;
      ascends = tt;
      entries = λ i h. absurd (ground arith);
      extras = λ e h. absurd (ground arith);
    };
    numbered = record { found = λ key i h. absurd (ground (arith, L.find-empty key)) };
    owned = λ i x h u z. ground arith;
  }

  -- After any number of calls of jitc_var_new, jitc_var_inc_ref and jitc_var_dec_ref from the initial
  -- state, the store is sound, and jitc_var finds every variable that the client holds. The client
  -- holds the operands of what it creates and gives up only what it holds; no count of references is at
  -- its limit when it creates or adds one; what it creates has no references, no extra record and a
  -- kind other than evaluated, and its operands and scope are indices below 2 ^ 28 and 2 ^ 32.
  pub Run-jitc_var :
      (flags : Flags) (cuda llvm : ThreadState) (backend : JitBackend) (t : State L)
      (e e_se : ℕ → ℕ)
      → Run (new_state L flags cuda llvm backend) zeros zeros t e e_se
      → Sound t e e_se
        × ((i : ℕ) → i ≢ 0 → 0 < e i + e_se i → (v : Variable) × (jitc_var t i ≡ ok v))
  Run-jitc_var flags cuda llvm backend t e e_se run =
      let k =
        Run-Sound (new_state L flags cuda llvm backend) zeros zeros
          (new_state-Sound flags cuda llvm backend) run in
      (k, λ i n h. held-jitc_var e e_se t k.counts i n h)
