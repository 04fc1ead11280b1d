-- ===== src/WebSocket/Handlers.antt =====
-- Laws of the map from the channels to their handlers.
use thassa.Base.{
  ℕ, ◌≡◌, refl, ap, not, Bool, true, false, Bool-cases, inl, inr, if_cases, if◌then◌else◌, Text,
  text_eq, text_eq_iff, List, [], ◌∷◌, All, arith,
}
use thassa.Socket.Channels.{has, set, delete}
use thassa.WebSocket.Step.{handlers, holds, add}

abbrev pub is_empty : List ℕ → Bool
is_empty [] = true
is_empty (h ∷ hs) = false

-- No channel is kept without a handler.
abbrev pub NonEmpty : List (Text × List ℕ) → Type 0
NonEmpty = All (λ (e : Text × List ℕ). is_empty e.1 ≡ false)

pub handlers-set :
    (c d : Text) (hs : List ℕ) (m : List (Text × List ℕ))
    → handlers c (set d hs m) ≡ (if text_eq d c then hs else handlers c m)
unfolding handlers set
handlers-set c d hs [] = refl
handlers-set c d hs ((e, ks) ∷ m) =
    ground (arith, handlers-set c d hs m, text_eq_iff e d, text_eq_iff e c, text_eq_iff d c)

pub handlers-delete :
    (c d : Text) (m : List (Text × List ℕ))
    → handlers c (delete d m) ≡ (if text_eq d c then [] else handlers c m)
unfolding handlers delete
handlers-delete c d [] = ground arith
handlers-delete c d ((e, ks) ∷ m) =
    ground (arith, handlers-delete c d m, text_eq_iff e d, text_eq_iff e c, text_eq_iff d c)

pub handlers_none : (c : Text) (m : List (Text × List ℕ)) → has c m ≡ false → handlers c m ≡ []
unfolding handlers has
handlers_none c [] h = refl
handlers_none c ((e, ks) ∷ m) h = ground (arith, h, handlers_none c m)

pub has-handlers :
    (c : Text) (m : List (Text × List ℕ)) → NonEmpty m → has c m ≡ not (is_empty (handlers c m))
unfolding handlers has
has-handlers c [] h = refl
has-handlers c ((e, ks) ∷ m) h = ground (arith, h.0, has-handlers c m h.1)

pub set-NonEmpty :
    (d : Text) (hs : List ℕ) (m : List (Text × List ℕ))
    → is_empty hs ≡ false
    → NonEmpty m
    → NonEmpty (set d hs m)
unfolding set
set-NonEmpty d hs [] q h = (q, tt)
set-NonEmpty d hs ((e, ks) ∷ m) q h =
    if_cases NonEmpty (text_eq e d) (λ _. (q, h.1)) (λ _. (h.0, set-NonEmpty d hs m q h.1))

pub delete-NonEmpty : (d : Text) (m : List (Text × List ℕ)) → NonEmpty m → NonEmpty (delete d m)
unfolding delete
delete-NonEmpty d [] h = tt
delete-NonEmpty d ((e, ks) ∷ m) h =
    if_cases NonEmpty (text_eq e d) (λ _. delete-NonEmpty d m h.1)
      (λ _. (h.0, delete-NonEmpty d m h.1))

pub add_some : (h : ℕ) (hs : List ℕ) → is_empty (add h hs) ≡ false
unfolding add holds
add_some h [] = refl
add_some h (k ∷ ks) = ground arith

-- In a test of a channel the name in the test may replace the other.
pub at_channel :
    (d c : Text) (f : List ℕ → List ℕ) (m : List (Text × List ℕ))
    → (if text_eq d c then f (handlers d m) else handlers c m)
      ≡ (if text_eq d c then f (handlers c m) else handlers c m)
at_channel d c f m = elim (Bool-cases (text_eq d c)) [
  | inl e ↦ rw e (ap (λ (t : Text). f (handlers t m)) ((text_eq_iff d c).0 e))
  | inr n ↦ rw n refl
]

-- The map that `keep_handlers` leaves.
abbrev pub kept_map : Text → List ℕ → List (Text × List ℕ) → List (Text × List ℕ)
kept_map c [] m = delete c m
kept_map c (h ∷ hs) m = set c (h ∷ hs) m

pub handlers-kept_map :
    (c d : Text) (hs : List ℕ) (m : List (Text × List ℕ))
    → handlers c (kept_map d hs m) ≡ (if text_eq d c then hs else handlers c m)
handlers-kept_map c d [] m = handlers-delete c d m
handlers-kept_map c d (h ∷ hs) m = handlers-set c d (h ∷ hs) m

pub kept_map-NonEmpty :
    (d : Text) (hs : List ℕ) (m : List (Text × List ℕ)) → NonEmpty m → NonEmpty (kept_map d hs m)
kept_map-NonEmpty d [] m = delete-NonEmpty d m
kept_map-NonEmpty d (h ∷ hs) m = set-NonEmpty d (h ∷ hs) m refl
