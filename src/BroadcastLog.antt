-- ===== src/BroadcastLog.antt =====
-- What the SPMC queue promises: a log that only grows, and readers that each follow it with an index
-- of their own. A reader that has been left behind by `capacity` objects may be thrown out.
use lock_free_queues.Prelude.{
  ℕ, ◌+◌, ◌≤◌, ◌≡◌, ◌≢◌, List, [], ◌∷◌, ◌++◌, some, length, get_elem?, ◌==◌, if◌then◌else◌,
}

pub data Cursor : Type 0 where
  absent : Cursor
  reading : (index : ℕ) → Cursor
  thrown_out : Cursor

pub record Log (T : Type 0) : Type 0 where
  pub objects : List T
  pub cursor : ℕ → Cursor

-- What a step of a reader shows: nothing, that it joins, an object, that there is none, or that it
-- was left behind.
pub data ReadEvent (T : Type 0) : Type 0 where
  quiet : ReadEvent T
  joins : ReadEvent T
  delivers : (x : T) → ReadEvent T
  misses : ReadEvent T
  overrun : ReadEvent T

pub data Event (T : Type 0) : Type 0 where
  idles : Event T
  publishes : (x : T) → Event T
  reads : (c : ℕ) (e : ReadEvent T) → Event T

module _ {T : Type 0} (capacity : ℕ) where
  -- What an event does to the cursor of its reader, over the log `xs`. A reader joins at the end, or
  -- one object before it.
  abbrev pub Moves : List T → Cursor → ReadEvent T → Cursor → Type 0
  Moves xs p quiet p' = p' ≡ p
  Moves xs p joins p' =
      (p ≡ absent) × ((i : ℕ) × (p' ≡ reading i) × (i ≤ length xs) × (length xs ≤ i + 1))
  Moves xs p (delivers x) p' =
      (i : ℕ) × (p ≡ reading i) × (get_elem? xs i ≡ some x) × (p' ≡ reading (i + 1))
  Moves xs p misses p' = (p ≡ reading (length xs)) × (p' ≡ p)
  Moves xs p overrun p' = (i : ℕ) × (p ≡ reading i) × (i + capacity ≤ length xs) × (p' ≡ thrown_out)

  abbrev pub Does : Log T → Event T → Log T → Type 0
  Does l idles l' = (l'.objects ≡ l.objects) × ((d : ℕ) → l'.cursor d ≡ l.cursor d)
  Does l (publishes x) l' =
      (l'.objects ≡ l.objects ++ (x ∷ [])) × ((d : ℕ) → l'.cursor d ≡ l.cursor d)
  Does l (reads c e) l' =
      (l'.objects ≡ l.objects)
      × Moves l.objects (l.cursor c) e (l'.cursor c)
      × ((d : ℕ) → c ≢ d → l'.cursor d ≡ l.cursor d)

  -- The events, one after the other, take the log from the first state to the second.
  pub data Run : Log T → List (Event T) → Log T → Type 0 where
    done : {l : Log T} → Run l [] l
    step :
        {l l' l'' : Log T} {e : Event T} {es : List (Event T)}
        → Does l e l'
        → Run l' es l''
        → Run l (e ∷ es) l''

-- What one event gives to its reader, and what a run gives to reader `c`.
abbrev pub delivered : {T : Type 0} → ReadEvent T → List T
delivered (delivers x) = x ∷ []
delivered _ = []

abbrev pub missed : {T : Type 0} → ReadEvent T → ℕ
missed misses = 1
missed _ = 0

abbrev pub delivered_to : {T : Type 0} → ℕ → List (Event T) → List T
delivered_to c [] = []
delivered_to c (reads d e ∷ es) = (if d == c then delivered e else []) ++ delivered_to c es
delivered_to c (_ ∷ es) = delivered_to c es

abbrev pub missed_by : {T : Type 0} → ℕ → List (Event T) → ℕ
missed_by c [] = 0
missed_by c (reads d e ∷ es) = (if d == c then missed e else 0) + missed_by c es
missed_by c (_ ∷ es) = missed_by c es
