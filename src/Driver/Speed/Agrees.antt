-- ===== src/Driver/Speed/Agrees.antt =====
-- The replay that measures the time and the one that measures the space make the same calls.
use malloc_implementation.Base.{
  ℕ, ◌≡◌, refl, inl, inr, ap, ◌∙◌, Bool, true, false, not, ◌&&◌, Bool-cases, none, some, List, [],
  ◌∷◌, ◌==◌, ltb, if◌then◌else◌, update,
}
use malloc_implementation.Base.Word.{add64, sub64}
use malloc_implementation.Machine.{
  Machine, Run, done, fault, out_of_fuel, Cmd, continue, pure, ◌>>=◌,
}
use malloc_implementation.MemLib.{mem_reset_brk}
use malloc_implementation.Driver.Ranges.{null}
use malloc_implementation.Driver.Payload.{Blocks}
use malloc_implementation.Driver.Replay.{
  Allocator, TraceOp, alloc, free, realloc, reinit_trace, reset_brk, set_block, set_block_size,
}
use malloc_implementation.Driver.Usage.{util_ops, heap_size, eval_mm_util}
use malloc_implementation.Driver.Speed.{speed_ops, eval_mm_speed}

-- A run without its value.
abbrev pub ending : {A : Type 0} → Run A → Run (Unit {0})
ending r = continue r (λ _. pure tt)

module _ {A B : Type 0} where
  -- Two continuations of one call that fail under the same test.
  ending-continue :
      (failed : ℕ → Bool) (x : ℕ → A) (y : ℕ → B) (k : A → Cmd ℕ) (l : B → Cmd (Unit {0}))
      → ((p : ℕ) (g : Machine) → ending (k (x p) g) ≡ l (y p) g)
      → (r : Run ℕ)
      → ending (continue (continue r (λ p. if failed p then (λ h. fault) else pure (x p))) k)
        ≡ continue (continue r (λ p. if failed p then (λ h. fault) else pure (y p))) l
  ending-continue failed x y k l same (done p g) = elim (Bool-cases (failed p)) [
    | inl e ↦ rw e refl
    | inr e ↦ rw e (same p g)
  ]
  ending-continue failed x y k l same fault = refl
  ending-continue failed x y k l same out_of_fuel = refl

  ending-free :
      (x : A) (y : B) (k : A → Cmd ℕ) (l : B → Cmd (Unit {0}))
      → ((g : Machine) → ending (k x g) ≡ l y g)
      → (r : Run (Unit {0}))
      → ending (continue (continue r (λ _. pure x)) k) ≡ continue (continue r (λ _. pure y)) l
  ending-free x y k l same (done p g) = same g
  ending-free x y k l same fault = refl
  ending-free x y k l same out_of_fuel = refl

abbrev higher : ℕ → ℕ → ℕ
higher max_total total = if ltb max_total total then total else max_total

set_block-blocks :
    (index size p : ℕ) (t u : Blocks)
    → t.blocks ≡ u.blocks
    → (set_block_size index size (set_block index p t)).blocks ≡ (set_block index p u).blocks
unfolding set_block set_block_size
set_block-blocks index size p t u e = ap (λ b. update b index p) e

module _ (a : Allocator) where
  util_ops-speed_ops :
      (ops : List TraceOp) (t u : Blocks) (total max_total : ℕ) (h : Machine)
      → t.blocks ≡ u.blocks
      → ending (util_ops a ops t total max_total h) ≡ speed_ops a ops u h
  unfolding util_ops speed_ops
  util_ops-speed_ops [] t u total max_total h e = refl
  util_ops-speed_ops (alloc index size ∷ ops) t u total max_total h e =
      ending-continue (λ p. p == null)
        (λ p. (set_block_size index size (set_block index p t), add64 total size))
        (λ p. set_block index p u)
        (λ after. util_ops a ops after.0 after.1 (higher max_total after.1)) (speed_ops a ops)
        (λ p g.
          util_ops-speed_ops ops (set_block_size index size (set_block index p t))
            (set_block index p u) (add64 total size) (higher max_total (add64 total size)) g
            (set_block-blocks index size p t u e))
        (a.mm_malloc size h)
  util_ops-speed_ops (realloc index size ∷ ops) t u total max_total h e =
      let total' = add64 total (sub64 size (t.block_sizes index)) in
      rw (← ap (λ (b : ℕ → ℕ). b index) e) (
        ending-continue (λ p. p == null && not (size == 0))
          (λ p. (set_block_size index size (set_block index p t), total'))
          (λ p. set_block index p u)
          (λ after. util_ops a ops after.0 after.1 (higher max_total after.1)) (speed_ops a ops)
          (λ p g.
            util_ops-speed_ops ops (set_block_size index size (set_block index p t))
              (set_block index p u) total' (higher max_total total') g
              (set_block-blocks index size p t u e))
          (a.mm_realloc (t.blocks index) size h))
  util_ops-speed_ops (free none ∷ ops) t u total max_total h e =
      ending-free (t, total) u (λ after. util_ops a ops after.0 after.1 (higher max_total after.1))
        (speed_ops a ops) (λ g. util_ops-speed_ops ops t u total (higher max_total total) g e)
        (a.mm_free null h)
  util_ops-speed_ops (free (some index) ∷ ops) t u total max_total h e =
      let total' = sub64 total (t.block_sizes index) in
      rw (← ap (λ (b : ℕ → ℕ). b index) e) (
        ending-free (t, total') u
          (λ after. util_ops a ops after.0 after.1 (higher max_total after.1)) (speed_ops a ops)
          (λ g. util_ops-speed_ops ops t u total' (higher max_total total') g e)
          (a.mm_free (t.blocks index) h))

  measured-ending :
      (r : Run ℕ)
      → ending {A = ℕ × ℕ} (continue r (λ peak. heap_size >>= λ size. pure (peak, size))) ≡ ending r
  unfolding heap_size
  measured-ending (done peak h) = refl
  measured-ending fault = refl
  measured-ending out_of_fuel = refl

  -- The replays from the result of mm_init.
  started-ending :
      (t : Blocks) (ops : List TraceOp) (r : Run Bool)
      → ending {A = ℕ × ℕ} (
          continue r (λ ok.
            if not ok
            then (λ h. fault)
            else (util_ops a ops t 0 0 >>= λ peak. heap_size >>= λ size. pure (peak, size))))
        ≡ continue r (λ ok. if not ok then (λ h. fault) else speed_ops a ops t)
  started-ending t ops (done true h) =
      measured-ending (util_ops a ops t 0 0 h) ∙ util_ops-speed_ops ops t t 0 0 h refl
  started-ending t ops (done false h) = refl
  started-ending t ops fault = refl
  started-ending t ops out_of_fuel = refl

  -- eval_mm_speed makes the allocator run as eval_mm_util does: it ends in the same machine, or
  -- fails where that fails.
  pub eval_mm_util-eval_mm_speed :
      (ops : List TraceOp) (t : Blocks) (h : Machine)
      → ending (eval_mm_util a ops t h) ≡ eval_mm_speed a ops t h
  unfolding eval_mm_util eval_mm_speed reset_brk
  eval_mm_util-eval_mm_speed ops t h =
      started-ending (reinit_trace t) ops (a.mm_init (record h { region = mem_reset_brk h.region }))
