-- ===== src/SpmcQueue/Refines.antt =====
-- Runs of the SPMC queue as runs of the log.
use lock_free_queues.Prelude.{
  ℕ, suc, ◌+◌, ◌^◌, ◌<◌, ◌≡◌, refl, sym, ap, ap₂, ◌∙◌, subst, List, [], ◌∷◌, ◌++◌, append-nil,
  append_assoc, arith, dec_lt, ℕ_discrete, lt→ltb, le→ltb, if◌then◌else◌, ◌==◌, ==_iff, ne→==,
  length, update, update_self, update_ne,
}
use lock_free_queues.Prelude.Words.{add64}
use lock_free_queues.Memory.Copy.{read_cells}
use lock_free_queues.Memory.Messages.{objects, objects-suc}
use lock_free_queues.BroadcastLog.{
  Log, absent, Moves, Event, idles, publishes, reads, Does, Run, done, step, delivered, missed,
  delivered_to, missed_by,
}
use lock_free_queues.SpmcQueue.{
  Shared, PushPc, ready, loaded, versioned, writing, stored, Consumer, push_step, pop_step, wrap,
  set_version, set_word,
}
use lock_free_queues.SpmcQueue.System.{System, Turn, produce, consume, count_push, turn, run, init}
use lock_free_queues.SpmcQueue.Invariant.{bound, published}
use lock_free_queues.SpmcQueue.Seqlock.{published-le}
use lock_free_queues.SpmcQueue.Delivery.{Inv, turn-Inv, init-Inv}
use lock_free_queues.SpmcQueue.Shown.{read_event}
use lock_free_queues.SpmcQueue.Reads.{cursor_of, Fresh, Reads, pop_step-Reads}

module _ (bits width : ℕ) {A : Type 0} (msg : ℕ → ℕ → A) where
  -- The log that the queue stands for: the published objects, and where each consumer is.
  abbrev pub log_of : System A → Log (List A)
  log_of s = record {
    objects = objects width msg 0 (published s.pc s.pushed);
    cursor = λ c. cursor_of (s.consumers c).pc (s.consumers c).reader;
  }

  abbrev AllFresh : System A → Type 0
  AllFresh s = (c : ℕ) → Fresh (s.consumers c).pc (s.consumers c).got

  -- The records of consumer `c` after an event.
  abbrev Records : ℕ → System A → Event (List A) → System A → Type 0
  Records c s e s' =
      ((s'.consumers c).got ≡ (s.consumers c).got ++ delivered_to c (e ∷ []))
      × ((s'.consumers c).misses ≡ (s.consumers c).misses + missed_by c (e ∷ []))

  abbrev Turns : System A → Event (List A) → System A → Type 0
  Turns s e s' =
      Does (2 ^ bits) (log_of s) e (log_of s') × ((c : ℕ) → Records c s e s') × AllFresh s'

  -- What a step of the producer at `pc` to `pc'` does: the last store to the slot publishes.
  abbrev pushes : ℕ → PushPc → PushPc → Event (List A)
  pushes n (writing w v k) (stored w') = publishes (read_cells (msg n) 0 width)
  pushes n pc pc' = idles

  -- The event of a turn, from the state before it and the step that it takes.
  unfoldable pub turn_event : Turn → System A → Event (List A)
  turn_event produce s = pushes s.pushed s.pc (push_step bits width (msg s.pushed) s.mem s.pc).1
  turn_event (consume c) s =
      let k = s.consumers c in reads c (read_event k.pc k (pop_step bits width s.mem k k.pc))

  -- The events of a schedule, one for each turn.
  unfoldable pub run_events : List Turn → System A → List (Event (List A))
  run_events [] s = []
  run_events (t ∷ ts) s = turn_event t s ∷ run_events ts (turn bits width msg t s)

  -- A step of the producer that publishes nothing.
  idle_turn :
      (s : System A) (m : Shared A) (pc : PushPc) (n : ℕ)
      → published pc n ≡ published s.pc s.pushed
      → AllFresh s
      → Turns s idles (record s { mem = m; pc = pc; pushed = n })
  idle_turn s m pc n same fresh = (
    (ap (objects width msg 0) same, λ d. refl),
    λ c. (sym (append-nil (s.consumers c).got), omega arith),
    fresh,
  )

  -- The producer publishes at the last store to the slot.
  push_step-Turns :
      (s : System A) (pc : PushPc)
      → s.pc ≡ pc
      → AllFresh s
      → let (m, pc') = push_step bits width (msg s.pushed) s.mem pc in
        Turns s
          (pushes s.pushed pc pc')
          (record s { mem = m; pc = pc'; pushed = count_push pc s.pushed })
  unfolding push_step
  push_step-Turns s ready at fresh =
      idle_turn s s.mem (loaded s.mem.writer) s.pushed (sym (ap (λ p. published p s.pushed) at))
        fresh
  push_step-Turns s (loaded w) at fresh =
      idle_turn s s.mem (versioned w (s.mem.version (wrap bits w))) s.pushed
        (sym (ap (λ p. published p s.pushed) at)) fresh
  push_step-Turns s (versioned w v) at fresh =
      idle_turn s (set_version s.mem (wrap bits w) (add64 v 1)) (writing w v 0) s.pushed
        (sym (ap (λ p. published p s.pushed) at)) fresh
  push_step-Turns s (writing w v k) at fresh =
      let here = ap (λ p. published p s.pushed) at in
      elim (dec_lt k width) [
        | yes more ↦ rw (lt→ltb k width more) (
            idle_turn s (set_word s.mem (wrap bits w) k (msg s.pushed k)) (writing w v (k + 1))
              s.pushed (sym here) fresh)
        | no over ↦ rw (le→ltb k width (omega arith)) (
          (
            ap (objects width msg 0) {y = suc s.pushed} (omega arith)
                ∙ objects-suc width msg 0 s.pushed
                ∙ ap₂ (λ i j. objects width msg 0 i ++ (read_cells (msg j) 0 width ∷ [])) (sym here)
                    (omega arith),
            λ d. refl,
          ),
          λ c. (sym (append-nil (s.consumers c).got), omega arith),
          fresh,
        )
      ]
  push_step-Turns s (stored w) at fresh =
      idle_turn s (record s.mem { writer = add64 w 1 }) ready (s.pushed + 1)
        (sym (ap (λ p. published p s.pushed) at)) fresh

  -- A step of consumer `c`, which is `k` after it.
  consumer_turn :
      (s : System A) (c : ℕ) (k : Consumer A)
      → AllFresh s
      → (reading : Reads bits width msg
          (published s.pc s.pushed)
          (s.consumers c).pc
          (s.consumers c)
          k)
      → Turns s (reads c reading.0) (record s { consumers = update s.consumers c k })
  consumer_turn s c k fresh (e, shown, moves, got, misses, fresh') = (
    (
      refl,
      subst
          (λ x.
            Moves (2 ^ bits) (objects width msg 0 (published s.pc s.pushed))
              (cursor_of (s.consumers c).pc (s.consumers c).reader) e (cursor_of x.pc x.reader))
          (sym (update_self s.consumers c k refl)) moves,
      λ d ne. ap (λ x. cursor_of x.pc x.reader) (update_ne s.consumers c k ne),
    ),
    recorded,
    all_fresh,
  )
    where
      all_fresh : (d : ℕ) → Fresh (update s.consumers c k d).pc (update s.consumers c k d).got
      all_fresh d = elim (ℕ_discrete c d) [
        | yes same ↦ subst (λ x. Fresh x.pc x.got) (sym (update_self s.consumers c k same)) fresh'
        | no ne ↦ subst (λ x. Fresh x.pc x.got) (sym (update_ne s.consumers c k ne)) (fresh d)
      ]

      recorded : (d : ℕ) → Records d s (reads c e) (record s { consumers = update s.consumers c k })
      recorded d = elim (ℕ_discrete c d) [
        | yes same ↦ rw ((==_iff c d).1 same) (
          got
              ∙ ap (λ i. (s.consumers i).got ++ delivered e) same
              ∙ ap (λ l. (s.consumers d).got ++ l) (sym (append-nil (delivered e))),
          misses ∙ ap (λ i. (s.consumers i).misses + missed e) same ∙ omega arith,
        )
        | no ne ↦ rw (ne→== c d ne) (sym (append-nil (s.consumers d).got), omega arith)
      ]

  turn-Turns :
      (t : Turn) {left : ℕ} {s : System A}
      → Inv bits width msg (suc left) s
      → AllFresh s
      → Turns s (turn_event t s) (turn bits width msg t s)
  unfolding turn turn_event
  turn-Turns produce {s = s} inv fresh = push_step-Turns s s.pc refl fresh
  turn-Turns (consume c) {s = s} inv fresh =
      let reading =
        pop_step-Reads bits width msg s.pc inv.pushing (s.consumers c) (inv.popping c)
          (omega (arith, inv.room, published-le s.pc s.pushed)) (s.consumers c).pc refl (fresh c)
          (inv.popping c).facts in
      subst (λ e. Turns s (reads c e) (turn bits width msg (consume c) s)) reading.1
        (consumer_turn s c _ fresh reading)

  delivered_to-cons :
      (c : ℕ) (e : Event (List A)) (es : List (Event (List A)))
      → delivered_to c (e ∷ es) ≡ delivered_to c (e ∷ []) ++ delivered_to c es
  delivered_to-cons c idles es = refl
  delivered_to-cons c (publishes x) es = refl
  delivered_to-cons c (reads d e) es =
      ap (λ l. l ++ delivered_to c es) (sym (append-nil (if d == c then delivered e else [])))

  missed_by-cons :
      (c : ℕ) (e : Event (List A)) (es : List (Event (List A)))
      → missed_by c (e ∷ es) ≡ missed_by c (e ∷ []) + missed_by c es
  missed_by-cons c idles es = omega arith
  missed_by-cons c (publishes x) es = omega arith
  missed_by-cons c (reads d e) es = omega arith

  -- A run of the log from `s` to `s'`, with what the consumers recorded meanwhile.
  abbrev Runs : System A → List (Event (List A)) → System A → Type 0
  Runs s es s' =
      Run (2 ^ bits) (log_of s) es (log_of s')
      × ((c : ℕ)
          → ((s'.consumers c).got ≡ (s.consumers c).got ++ delivered_to c es)
            × ((s'.consumers c).misses ≡ (s.consumers c).misses + missed_by c es))

  run-Runs :
      (ts : List Turn) {s : System A}
      → Inv bits width msg (length ts) s
      → AllFresh s
      → Runs s (run_events ts s) (run bits width msg ts s)
  unfolding run run_events
  run-Runs [] {s} inv fresh = (done, λ c. (sym (append-nil (s.consumers c).got), omega arith))
  run-Runs (t ∷ ts) {s} inv fresh =
      let e = turn_event t s in
      let es = run_events ts (turn bits width msg t s) in
      let (does, here, fresh') = turn-Turns t inv fresh in
      let (trace, later) = run-Runs ts (turn-Inv bits width msg t inv) fresh' in
      (
        step does trace,
        λ c. (
          (later c).0
              ∙ ap (λ l. l ++ delivered_to c es) (here c).0
              ∙ append_assoc (s.consumers c).got (delivered_to c (e ∷ [])) (delivered_to c es)
              ∙ ap (λ l. (s.consumers c).got ++ l) (sym (delivered_to-cons c e es)),
          omega (arith, (later c).1, (here c).1, missed_by-cons c e es),
        ),
      )

  -- After any schedule of fewer than 2^62 steps from an empty queue, what happened is a run of a log
  -- that starts empty and without readers, with one event for each turn of the schedule, which is what
  -- that turn shows: a push publishes its object at its last store to the slot, a consumer joins when
  -- it is made, a `pop` returns an object, returns false or aborts, and any other turn shows nothing.
  -- So a consumer joins at the end of the log of that moment or one object before it, gets from a
  -- `pop` that returns true the object at its index, is told false only when it has read the whole
  -- log of that moment, and aborts only when it is then behind by as many objects as there are slots. The log and the indices are those of the queue at the end, and the objects and the false
  -- returns of each consumer those of this run.
  pub spmc_refines_log :
      (blank : ℕ → ℕ → A) (ts : List Turn)
      → length ts < bound
      → let s = run bits width msg ts (init blank) in
        let es = run_events ts (init blank) in
        Run (2 ^ bits) (record { objects = []; cursor = λ c. absent }) es (log_of s)
        × ((c : ℕ)
            → ((s.consumers c).got ≡ delivered_to c es) × ((s.consumers c).misses ≡ missed_by c es))
  unfolding init
  spmc_refines_log blank ts lt =
      let (trace, records) =
        run-Runs ts (init-Inv bits width msg (length ts) blank lt) (λ c. refl) in
      (trace, λ c. ((records c).0, omega (arith, (records c).1)))
