-- ===== src/SpscQueue/Objects.antt =====
-- The element type of the queue, which its user supplies, and the slots that hold its objects.
use lock_free_queues.Prelude.{◌≡◌, Bool, true}

-- The type traits that the code tests, and the type's own constructors and assignment: a move
-- gives the new object and what is left of the source.
pub record Element {ℓ} (T : Type ℓ) : Type ℓ where
  pub trivially_copyable : Bool
  pub trivially_destructible : Bool
  pub copy_new : T → T
  pub move_new : T → T × T
  pub move_assign : T → T → T × T

-- What C++ asks of such a type: copies and moves carry the value over, and a trivially copyable
-- type has a trivial destructor.
pub record IsRegular {ℓ} {T : Type ℓ} (e : Element T) : Type ℓ where
  pub copies : (x : T) → e.copy_new x ≡ x
  pub moves : (x : T) → (e.move_new x).0 ≡ x
  pub assigns : (dst x : T) → (e.move_assign dst x).0 ≡ x
  pub trivial : e.trivially_copyable ≡ true → e.trivially_destructible ≡ true

-- `Slot`: storage with or without an object whose lifetime has begun.
pub data Slot {ℓ} (T : Type ℓ) : Type ℓ where
  raw : Slot T
  live : T → Slot T
