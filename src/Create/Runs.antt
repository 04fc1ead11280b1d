-- ===== src/Create/Runs.antt =====
-- The runs of `runUpload` next to the media that they upload.
use thassa.Base.{
  Text, ℕ, ◌+◌, ◌<◌, ◌≡◌, ◌≢◌, refl, sym, ap, ◌∙◌, ◌==◌, ◌&&◌, Bool-cases, inl, inr, if_cases,
  if◌then◌else◌, Bool, true, false, List, [], ◌∷◌, Option, none, some, All, arith,
}
use thassa.Create.{MediaItem, Token, token_of, UploadStatus}
use thassa.Create.Media.{is_uploading, is_failed, same_token, patched, progressed, requeued, edited}
use thassa.Create.Lists.{Without}
use thassa.Create.Uploads.{put}

abbrev pub Runs : Type 0
Runs = Token → Option Bool

-- An item has a run that is not aborted if it uploads, else none, and no run for a later attempt.
pub record Item (r : Runs) (m : MediaItem) : Type 0 where
  pub current : r (m.key, m.attempt) ≡ (if is_uploading m.status then some false else none)
  pub later : (a : ℕ) → m.attempt < a → r (m.key, a) ≡ none

and_false : (b : Bool) → b && false ≡ false
and_false true = refl
and_false false = refl

pub put_other {ℓ} :
    {A : Type ℓ} (k a : ℕ) (v : A) (f : Token → A) (j b : ℕ)
    → j ≢ k
    → put (k, a) v f (j, b) ≡ f (j, b)
unfolding put
put_other k a v f j b h = let differ : (j == k) ≡ false = ground (arith, h) in rw differ refl

pub put_later {ℓ} :
    {A : Type ℓ} (k a : ℕ) (v : A) (f : Token → A) (b : ℕ)
    → a < b
    → put (k, a) v f (k, b) ≡ f (k, b)
unfolding put
put_later k a v f b h =
    let differ : (b == a) ≡ false = ground (arith, h) in rw (differ, and_false (k == k)) refl

pub put_same {ℓ} : {A : Type ℓ} (k a : ℕ) (v : A) (f : Token → A) → put (k, a) v f (k, a) ≡ v
unfolding put
put_same k a v f =
    let same : (k == k) ≡ true = ground arith in
    let same' : (a == a) ≡ true = ground arith in rw (same, same') refl

pub put_hit {ℓ} :
    {A : Type ℓ} (t u : Token) (v : A) (f : Token → A) → same_token u t ≡ true → put t v f u ≡ v
unfolding put
put_hit t u v f h = rw h refl

pub put_miss {ℓ} :
    {A : Type ℓ} (t u : Token) (v : A) (f : Token → A) → same_token u t ≡ false → put t v f u ≡ f u
unfolding put
put_miss t u v f h = rw h refl

pub put-none : (t u : Token) (r : Runs) → r u ≡ none → put t none r u ≡ none
unfolding put
put-none t u r h = if_cases (λ o. o ≡ none) (same_token u t) (λ e. refl) (λ e. h)

-- What happens to the runs of one key leaves the other items as they are.
pub Item-other :
    (k a : ℕ) (v : Option Bool) (r : Runs) (m : MediaItem)
    → m.key ≢ k
    → Item r m
    → Item (put (k, a) v r) m
Item-other k a v r m h i = record {
  current = put_other k a v r m.key m.attempt h ∙ i.current;
  later = λ b l. put_other k a v r m.key b h ∙ i.later b l;
}

pub All-Item-other :
    (k a : ℕ) (v : Option Bool) (r : Runs) (ms : List MediaItem)
    → Without k ms
    → All (Item r) ms
    → All (Item (put (k, a) v r)) ms
All-Item-other k a v r [] w i = tt
All-Item-other k a v r (m ∷ ms) (n, w) (j, i) =
    (Item-other k a v r m n j, All-Item-other k a v r ms w i)

-- An edit starts a new attempt, whatever becomes of the run of the old one.
pub edited-Item :
    (v : Option Bool) (r : Runs) (uri : Text) (m : MediaItem)
    → Item r m
    → Item (put (token_of m) v r) (edited uri m)
edited-Item v r uri m i = record {
  current =
      put_later m.key m.attempt v r (m.attempt + 1) (omega arith)
      ∙ i.later (m.attempt + 1) (omega arith);
  later = λ b l. put_later m.key m.attempt v r b (omega (arith, l)) ∙ i.later b (omega (arith, l));
}

pub requeued-Item : (key : ℕ) (r : Runs) (m : MediaItem) → Item r m → Item r (requeued key m)
requeued-Item key r m i =
    if_cases (λ (x : MediaItem). Item r x) (m.key == key && is_failed m.status)
      (λ h. record {
        current = i.later (m.attempt + 1) (omega arith);
        later = λ b l. i.later b (omega (arith, l));
      })
      (λ h. i)

pub progressed-Item :
    (t : Token) (f : ℕ) (r : Runs) (m : MediaItem) → Item r m → Item r (progressed t f m)
progressed-Item t f r m i =
    if_cases (λ (x : MediaItem). Item r x) (same_token (token_of m) t && is_uploading m.status)
      (λ h.
        let up : is_uploading m.status ≡ true = ground (arith, h) in
        record {
          current = i.current ∙ ap (λ b. if b then some false else none) up;
          later = i.later;
        })
      (λ h. i)

-- A run that was not aborted ends with its item.
pub patched-Item :
    (t : Token) (status : UploadStatus) (r : Runs) (m : MediaItem)
    → is_uploading status ≡ false
    → Item r m
    → Item (put t none r) (patched t status m)
patched-Item t status r m h i =
    if_cases (λ (x : MediaItem). Item (put t none r) x) (same_token (token_of m) t)
      (λ e. record {
        current =
            put_hit t (token_of m) none r e ∙ sym (ap (λ b. if b then some false else none) h);
        later = λ b l. put-none t (m.key, b) r (i.later b l);
      })
      (λ e. record {
        current = put_miss t (token_of m) none r e ∙ i.current;
        later = λ b l. put-none t (m.key, b) r (i.later b l);
      })

if_not_aborted : (b : Bool) → some true ≢ (if b then some false else none)
if_not_aborted b e = ground (arith, e)

-- A run that was aborted ends without one.
pub ended-Item :
    (t : Token) (r : Runs) (m : MediaItem) → r t ≡ some true → Item r m → Item (put t none r) m
ended-Item (k, a) r m h i = elim (Bool-cases (same_token (token_of m) (k, a))) [
  | inl e ↦
      let same : m.key ≡ k = ground (arith, e) in
      let same' : m.attempt ≡ a = ground (arith, e) in
      let there : r (m.key, m.attempt) ≡ some true = rw (same, same') h in
      absurd (if_not_aborted (is_uploading m.status) (sym there ∙ i.current))
  | inr e ↦ record {
    current = put_miss (k, a) (token_of m) none r e ∙ i.current;
    later = λ b l. put-none (k, a) (m.key, b) r (i.later b l);
  }
]
