-- ===== src/SpscQueue/Tests.antt =====
-- Runs of the object queue, and the theorems at them.
use lock_free_queues.Prelude.{
  ℕ, ◌+◌, ◌<◌, ◌≡◌, refl, List, [], ◌∷◌, Option, none, some, zero, suc, true, false, arith, ◌%◌,
}
use lock_free_queues.SpscQueue.Objects.{Element, IsRegular, Slot, raw, live}
use lock_free_queues.SpscQueue.{
  SpscQueue, wrap, used, is_full, construct, take_out, try_push, try_push_move, try_pop, destroy,
}
use lock_free_queues.SpscQueue.Contents.{Holds}
use lock_free_queues.SpscQueue.Push.{try_push_refines}
use lock_free_queues.SpscQueue.Pop.{Pops, try_pop_refines}
use lock_free_queues.SpscQueue.Destroy.{AllRaw, destroy_lem}
use lock_free_queues.SpscQueue.Stream.{push, push_move, pop, run, Balanced, run_objects-Balanced}

-- Objects with a destructor; a move leaves 0 behind.
abbrev text : Element ℕ
text = record {
  trivially_copyable = false;
  trivially_destructible = false;
  copy_new = λ x. x;
  move_new = λ x. (x, 0);
  move_assign = λ dst x. (x, 0);
}

text-IsRegular : IsRegular text
text-IsRegular = record {
  copies = λ x. refl;
  moves = λ x. refl;
  assigns = λ dst x. refl;
  trivial = λ e. cc;
}

-- Counters about to wrap.
abbrev wrapping : SpscQueue ℕ
wrapping = record {
  buffer = λ i. elim i [ zero ↦ raw | suc j ↦ raw ];
  reader = 0xffff_ffff_ffff_ffff;
  writer = 0xffff_ffff_ffff_ffff;
}

wrapping-Holds : Holds text wrapping []
wrapping-Holds = record {
  reader_in = omega arith;
  writer_at = refl;
  room = omega arith;
  cells = refl;
  free = λ k nt le lt. all_raw ((0xffff_ffff_ffff_ffff + k) % 131072);
}
  where
    all_raw : (i : ℕ) → wrapping.buffer i ≡ raw
    all_raw zero = refl
    all_raw (suc i) = refl

try_push_refines_example :
    (q' : SpscQueue ℕ) × (try_push text wrapping 7 ≡ some (true, q')) × Holds text q' (7 ∷ [])
try_push_refines_example = try_push_refines wrapping-Holds 7 text-IsRegular

-- What a run accepted and delivered.
abbrev log : Option (List ℕ × List ℕ × SpscQueue ℕ) → List ℕ × List ℕ
log none = ([], [])
log (some (a, d, q)) = (a, d)

-- Across the wrap of both counters: push, push, pop, pop, and a pop that finds nothing.
run_wraps :
    log (run text (push 7 ∷ push_move 8 ∷ pop 0 ∷ pop 0 ∷ pop 0 ∷ []) wrapping)
    ≡ (7 ∷ 8 ∷ [], 7 ∷ 8 ∷ [])
unfolding run try_push try_push_move try_pop construct take_out is_full used wrap
run_wraps = refl

-- One object in the first slot.
abbrev one_held : SpscQueue ℕ
one_held = record { buffer = λ i. elim i [ zero ↦ live 7 | suc j ↦ raw ]; reader = 0; writer = 1 }

one_held-Holds : Holds text one_held (7 ∷ [])
one_held-Holds = record {
  reader_in = omega arith;
  writer_at = refl;
  room = omega arith;
  cells = refl;
  free = λ k nt le lt. above ((0 + k) % 131072) (omega arith);
}
  where
    above : (i : ℕ) → 0 < i → one_held.buffer i ≡ raw
    above zero h = absurd (omega arith)
    above (suc i) h = refl

try_pop_refines_example : Pops text one_held 3 (7 ∷ [])
try_pop_refines_example = try_pop_refines 3 (7 ∷ []) text-IsRegular one_held-Holds

destroy_lem_example : (mem : ℕ → Slot ℕ) × (destroy text 2 one_held ≡ some mem) × AllRaw mem
destroy_lem_example = destroy_lem 2 text-IsRegular refl one_held-Holds (omega arith)

run_objects-Balanced_example :
    Balanced text (7 ∷ []) (run text (push 8 ∷ pop 0 ∷ pop 0 ∷ pop 0 ∷ []) one_held)
run_objects-Balanced_example =
    run_objects-Balanced text-IsRegular (push 8 ∷ pop 0 ∷ pop 0 ∷ pop 0 ∷ []) (7 ∷ [])
      one_held-Holds
