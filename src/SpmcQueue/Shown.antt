-- ===== src/SpmcQueue/Shown.antt =====
-- What a step of a consumer of the SPMC queue shows its caller, as an event of the log.
use lock_free_queues.Prelude.{
  ◌+◌, ◌≡◌, refl, sym, ap, ◌∙◌, List, [], ◌∷◌, drop, if◌then◌else◌, ltb, ◌++◌, arith, lt→ltb,
  le→ltb, length,
}
use lock_free_queues.BroadcastLog.{ReadEvent, quiet, joins, delivers, misses, overrun}
use lock_free_queues.SpmcQueue.{PopPc, making, waiting, copying, aborted, Consumer}

-- What a step of a consumer has shown its caller, by the record before it and after it: the object
-- that a `pop` returned, or that it returned false, or that the thread has aborted.
abbrev pub status : {A : Type 0} → PopPc A → PopPc A → ReadEvent (List A)
status making p' = joins
status waiting aborted = overrun
status (copying temp) aborted = overrun
status p p' = quiet

abbrev pub first_of : {A : Type 0} → List (List A) → ReadEvent (List A) → ReadEvent (List A)
first_of [] e = e
first_of (x ∷ xs) e = delivers x

unfoldable pub read_event : {A : Type 0} → PopPc A → Consumer A → Consumer A → ReadEvent (List A)
read_event p c c' =
    first_of (drop (length c.got) c'.got)
      (if ltb c.misses c'.misses then misses else status p c'.pc)

-- What it shows when no object is delivered, and when one is.
drop_self : {A : Type 0} (xs : List A) → drop (length xs) xs ≡ []
drop_self [] = refl
drop_self (x ∷ xs) = drop_self xs

drop_more : {A : Type 0} (xs ys : List A) → drop (length xs) (xs ++ ys) ≡ ys
drop_more [] ys = refl
drop_more (x ∷ xs) ys = drop_more xs ys

pub shows_status :
    {A : Type 0} (p : PopPc A) (c c' : Consumer A)
    → c'.got ≡ c.got
    → c'.misses ≡ c.misses
    → status p c'.pc ≡ read_event p c c'
unfolding read_event
shows_status p c c' got misses_same = sym (
    ap
      (λ l.
        first_of (drop (length c.got) l)
          (if ltb c.misses c'.misses then misses else status p c'.pc))
      got
    ∙ ap (λ l. first_of l (if ltb c.misses c'.misses then misses else status p c'.pc))
        (drop_self c.got)
    ∙ ap (λ b. if b then misses else status p c'.pc) (le→ltb c.misses c'.misses (omega arith)))

pub shows_miss :
    {A : Type 0} (p : PopPc A) (c c' : Consumer A)
    → c'.got ≡ c.got
    → c'.misses ≡ c.misses + 1
    → misses ≡ read_event p c c'
unfolding read_event
shows_miss p c c' got more = sym (
    ap
      (λ l.
        first_of (drop (length c.got) l)
          (if ltb c.misses c'.misses then misses else status p c'.pc))
      got
    ∙ ap (λ l. first_of l (if ltb c.misses c'.misses then misses else status p c'.pc))
        (drop_self c.got)
    ∙ ap (λ b. if b then misses else status p c'.pc) (lt→ltb c.misses c'.misses (omega arith)))

pub shows_object :
    {A : Type 0} (p : PopPc A) (c c' : Consumer A) (x : List A)
    → c'.got ≡ c.got ++ (x ∷ [])
    → delivers x ≡ read_event p c c'
unfolding read_event
shows_object p c c' x got = sym (
    ap
      (λ l.
        first_of (drop (length c.got) l)
          (if ltb c.misses c'.misses then misses else status p c'.pc))
      got
    ∙ ap (λ l. first_of l (if ltb c.misses c'.misses then misses else status p c'.pc))
        (drop_more c.got (x ∷ [])))
