-- ===== src/Bench/BurstThreads/Others.antt =====
-- What a step of one thread of the burst benchmark leaves to the others.
use lock_free_queues.Prelude.{
  ℕ, ◌+◌, ◌*◌, ◌≡◌, ◌≢◌, ◌⊎◌, refl, sym, ap, subst, arith, inl, inr, List, [], ◌∷◌, Bool-cases, ltb,
  lt→ltb, le→ltb, dec_lt, ℕ_discrete, update_ne, update_self, ◌∙◌, ◌<◌,
}
use lock_free_queues.Bench.Burst.{epoch_count, epoch_messages}
use lock_free_queues.Bench.BurstThreads.{
  Place, at_start, working, at_end, finished, Burst, Actor, producer, consumer, everyone, produce,
  consume, step, run,
}
use lock_free_queues.SpmcQueue.{aborted}
use lock_free_queues.Bench.BurstThreads.Barriers.{AllFinished}
use lock_free_queues.Bench.BurstThreads.Meter.{stays_aborted}

pub actor_cases : (a b : Actor) → (a ≡ b) ⊎ (a ≢ b)
actor_cases producer producer = inl refl
actor_cases producer (consumer d) = inr (λ e. cc)
actor_cases (consumer c) producer = inr (λ e. cc)
actor_cases (consumer c) (consumer d) = elim (ℕ_discrete c d) [
  | yes e ↦ inl (ap consumer e)
  | no ne ↦ inr (λ e. ne (cc))
]

-- What belongs to the thread of `a` alone is as before.
abbrev pub Untouched : {A : Type 0} → Actor → Burst A → Burst A → Type 0
Untouched producer s s' = s.producer ≡ s'.producer
Untouched (consumer c) s s' =
    (s.places c ≡ s'.places c) × (s.queue.consumers c ≡ s'.queue.consumers c)

module _ (bits width : ℕ) {A : Type 0} (changes : ℕ → ℕ → A) (n burst consumer_count : ℕ) where
  produce-Untouched :
      (s : Burst A) (p : Place) (c : ℕ)
      → Untouched (consumer c) s (produce bits width changes n burst consumer_count s p)
  unfolding produce
  produce-Untouched s (at_start e) c =
      elim (Bool-cases (everyone (epoch_count n burst) consumer_count (2 * e + 1) s)) [
        | inl free ↦ rw free (refl, refl)
        | inr shut ↦ rw shut (refl, refl)
      ]
  produce-Untouched s (working e i) c = elim (Bool-cases (ltb i (epoch_messages n burst e))) [
    | inl more ↦ rw more (refl, refl)
    | inr over ↦ rw over (refl, refl)
  ]
  produce-Untouched s (at_end e) c =
      elim (Bool-cases (everyone (epoch_count n burst) consumer_count (2 * e + 2) s)) [
        | inl free ↦ rw free (refl, refl)
        | inr shut ↦ rw shut (refl, refl)
      ]
  produce-Untouched s finished c = (refl, refl)

  -- The producer, and the consumers but `c`.
  abbrev Elsewhere : ℕ → Burst A → Burst A → Type 0
  Elsewhere c s s' = (s.producer ≡ s'.producer) × ((d : ℕ) → c ≢ d → Untouched (consumer d) s s')

  consume-Elsewhere :
      (s : Burst A) (c : ℕ) (p : Place)
      → Elsewhere c s (consume bits width changes n burst consumer_count s c p)
  unfolding consume
  consume-Elsewhere s c (at_start e) =
      elim (Bool-cases (everyone (epoch_count n burst) consumer_count (2 * e + 1) s)) [
        | inl free ↦ rw free (refl, λ d ne. (sym (update_ne s.places c _ ne), refl))
        | inr shut ↦ rw shut (refl, λ d ne. (refl, refl))
      ]
  consume-Elsewhere s c (working e i) = elim (Bool-cases (ltb i (epoch_messages n burst e))) [
    | inl more ↦
        rw more (
          refl,
          λ d ne. (sym (update_ne s.places c _ ne), sym (update_ne s.queue.consumers c _ ne)),
        )
    | inr over ↦ rw over (refl, λ d ne. (sym (update_ne s.places c _ ne), refl))
  ]
  consume-Elsewhere s c (at_end e) =
      elim (Bool-cases (everyone (epoch_count n burst) consumer_count (2 * e + 2) s)) [
        | inl free ↦ rw free (refl, λ d ne. (sym (update_ne s.places c _ ne), refl))
        | inr shut ↦ rw shut (refl, λ d ne. (refl, refl))
      ]
  consume-Elsewhere s c finished = (refl, λ d ne. (refl, refl))

  abbrev next : Actor → Burst A → Burst A
  next = step bits width changes n burst consumer_count

  pub next-Untouched : (a b : Actor) (s : Burst A) → a ≢ b → Untouched a s (next b s)
  unfolding step
  next-Untouched producer producer s ne = absurd (ne refl)
  next-Untouched (consumer c) producer s ne = produce-Untouched s s.producer c
  next-Untouched producer (consumer d) s ne = elim (Bool-cases (ltb d consumer_count)) [
    | inl lt ↦ rw lt (consume-Elsewhere s d (s.places d)).0
    | inr ge ↦ rw ge refl
  ]
  next-Untouched (consumer c) (consumer d) s ne = elim (Bool-cases (ltb d consumer_count)) [
    | inl lt ↦ rw lt ((consume-Elsewhere s d (s.places d)).1 c (λ e. ne (ap consumer (sym e))))
    | inr ge ↦ rw ge (refl, refl)
  ]

  -- A consumer that has aborted does nothing more.
  consume-stays_aborted :
      (s : Burst A) (c : ℕ) (p : Place)
      → (s.queue.consumers c).pc ≡ aborted
      → ((consume bits width changes n burst consumer_count s c p).queue.consumers c).pc ≡ aborted
  unfolding consume
  consume-stays_aborted s c (at_start e) gone =
      elim (Bool-cases (everyone (epoch_count n burst) consumer_count (2 * e + 1) s)) [
        | inl free ↦ rw free gone
        | inr shut ↦ rw shut gone
      ]
  consume-stays_aborted s c (working e i) gone =
      elim (Bool-cases (ltb i (epoch_messages n burst e))) [
        | inl more ↦ rw more (
            ap (λ j. j.pc) (update_self s.queue.consumers c _ refl)
            ∙ stays_aborted bits width s.queue.mem (s.queue.consumers c) gone)
        | inr over ↦ rw over gone
      ]
  consume-stays_aborted s c (at_end e) gone =
      elim (Bool-cases (everyone (epoch_count n burst) consumer_count (2 * e + 2) s)) [
        | inl free ↦ rw free gone
        | inr shut ↦ rw shut gone
      ]
  consume-stays_aborted s c finished gone = gone

  own :
      (s : Burst A) (c : ℕ)
      → (s.queue.consumers c).pc ≡ aborted
      → ((next (consumer c) s).queue.consumers c).pc ≡ aborted
  unfolding step
  own s c gone = elim (Bool-cases (ltb c consumer_count)) [
    | inl lt ↦ rw lt (consume-stays_aborted s c (s.places c) gone)
    | inr ge ↦ rw ge gone
  ]

  next-stays_aborted :
      (a : Actor) (s : Burst A) (c : ℕ)
      → (s.queue.consumers c).pc ≡ aborted
      → ((next a s).queue.consumers c).pc ≡ aborted
  next-stays_aborted a s c gone = elim (actor_cases (consumer c) a) [
    | inl same ↦ subst (λ b. ((next b s).queue.consumers c).pc ≡ aborted) same (own s c gone)
    | inr ne ↦ ap (λ j. j.pc) (sym (next-Untouched (consumer c) a s ne).1) ∙ gone
  ]

  -- No consumer has aborted.
  abbrev pub AllWell : Burst A → Type 0
  AllWell s = (c : ℕ) → c < consumer_count → (s.queue.consumers c).pc ≢ aborted

  pub AllWell-before : (a : Actor) (s : Burst A) → AllWell (next a s) → AllWell s
  AllWell-before a s well c lt gone = well c lt (next-stays_aborted a s c gone)

  abbrev all_run : List Actor → Burst A → Burst A
  all_run = run bits width changes n burst consumer_count

  finished-next : (a : Actor) (s : Burst A) → AllFinished n burst consumer_count s → next a s ≡ s
  unfolding step produce consume
  finished-next producer s done = ap (produce bits width changes n burst consumer_count s) done.0
  finished-next (consumer c) s done = elim (dec_lt c consumer_count) [
    | yes lt ↦
        rw (lt→ltb c consumer_count lt)
          (ap (consume bits width changes n burst consumer_count s c) (done.1 c lt))
    | no ge ↦ rw (le→ltb c consumer_count (omega arith)) refl
  ]

  pub AllWell-run : (turns : List Actor) (s : Burst A) → AllWell (all_run turns s) → AllWell s
  unfolding run
  AllWell-run [] s well = well
  AllWell-run (a ∷ turns) s well = AllWell-before a s (AllWell-run turns (next a s) well)

  pub run-AllFinished :
      (turns : List Actor) (s : Burst A)
      → AllFinished n burst consumer_count s
      → AllFinished n burst consumer_count (all_run turns s)
  unfolding run
  run-AllFinished [] s done = done
  run-AllFinished (a ∷ turns) s done =
      run-AllFinished turns (next a s)
        (subst (AllFinished n burst consumer_count) (sym (finished-next a s done)) done)
