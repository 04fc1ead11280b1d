-- ===== src/Api/Stored.antt =====
-- When `uploadMedia` of the mobile client returns.
use thassa.Base.{
  arith, ℕ, ◌≡◌, refl, sym, ap, ◌∙◌, if_cases, Bool, true, false, Text, codes, [], ◌∷◌, Option,
  none, some,
}
use thassa.Json.{Json, obj, str, fields}
use thassa.Api.{Thrown, Outcome, returns, throws}
use thassa.Api.Mobile.{Net, is_ok, post}
use thassa.Api.Upload.{
  Storage, Uploaded, member, live, stored, complete_path, store_file, upload_media, ◌>>=◌,
}

-- A file that is stored: nothing was aborted, and the storage took it.
pub record IsStored (w : Storage) : Type 0 where
  pub not_aborted : w.aborted_after ≡ false
  pub status : ℕ
  pub answered : w.put ≡ returns (some status)
  pub taken : is_ok status ≡ true

is_returned : {A : Type 0} → Outcome A → Bool
is_returned (throws e) = false
is_returned (returns x) = true

never : {A : Type 0} {x : A} (e : Thrown) → throws e ≡ returns x → ⊥
unfolding is_returned
never e h = let k : false ≡ true = ap is_returned h in ground (arith, k)

-- What returns has returned at each step.
bind-returns :
    {A B : Type 0} (m : Outcome A) (f : A → Outcome B) (b : B)
    → (m >>= f) ≡ returns b
    → (a : A) × (m ≡ returns a) × (f a ≡ returns b)
bind-returns (throws e) f b h = absurd (never e h)
bind-returns (returns a) f b h = (a, refl, h)

live-returns : (b : Bool) (u : Unit {0}) → live b ≡ returns u → b ≡ false
live-returns true u h = absurd (never _ h)
live-returns false u h = refl

stored-returns :
    (o : Option ℕ) (u : Unit {0})
    → stored o ≡ returns u
    → (status : ℕ) × (o ≡ some status) × (is_ok status ≡ true)
stored-returns none u = λ h. absurd (never _ h)
stored-returns (some status) u =
    if_cases
      (λ (o : Outcome (Unit {0})).
        o ≡ returns u → (n : ℕ) × (some status ≡ some n) × (is_ok n ≡ true))
      (is_ok status) (λ e h. (status, refl, e)) (λ e h. absurd (never _ h))

store_file-IsStored : (w : Storage) (u : Unit {0}) → store_file w ≡ returns u → IsStored w
unfolding store_file
store_file-IsStored w u =
    if_cases (λ (o : Outcome (Unit {0})). o ≡ returns u → IsStored w) w.is_web
      (λ web h.
        let (a, l, h1) = bind-returns (live w.aborted_after) _ u h in
        let (b, k, h2) = bind-returns w.blob _ u h1 in
        let (o, p, h3) = bind-returns w.put _ u h2 in
        let (n, q, t) = stored-returns o u h3 in
        record {
          not_aborted = live-returns w.aborted_after a l;
          status = n;
          answered = p ∙ ap returns q;
          taken = t;
        })
      (λ native h.
        let (o, p, h1) = bind-returns w.put _ u h in
        let (a, l, h2) = bind-returns (live w.aborted_after) _ u h1 in
        let (n, q, t) = stored-returns o u h2 in
        record {
          not_aborted = live-returns w.aborted_after a l;
          status = n;
          answered = p ∙ ap returns q;
          taken = t;
        })

id_or : Text → Outcome Uploaded → Text
id_or t (throws e) = t
id_or t (returns x) = x.id

module _ (presigning : Net) (key : Text) (completing : Net) (key' : Text) (w : Storage)
    (content_type : Text) where
  -- The two requests of an upload, with what the first returns.
  pub record IsComplete (x : Uploaded) : Type 0 where
    pub presign : Json
    pub presigned :
        (post presigning key
          (codes "/v1/media")
          (some (obj (fields ((codes "content_type", str content_type) ∷ []))))).0
        ≡ returns presign
    pub is_stored : IsStored w
    pub answer : Json
    pub completed : (post completing key' (complete_path x.id) none).0 ≡ returns answer
    pub same_id : x.id ≡ member (codes "id") presign

  -- An upload that returns an id was given it, stored the file and told the backend, in this order.
  pub upload_media-IsComplete :
      (x : Uploaded)
      → upload_media presigning key completing key' w content_type ≡ returns x
      → IsComplete x
  unfolding upload_media id_or
  upload_media-IsComplete x h =
      let (a, l, h1) = bind-returns (live w.aborted_at_start) _ x h in
      let (p, e, h2) = bind-returns _ _ x h1 in
      let (b, s, h3) = bind-returns (store_file w) _ x h2 in
      let (c, d, h4) =
        bind-returns (post completing key' (complete_path (member (codes "id") p)) none).0 _ x h3 in
      let same : x.id ≡ member (codes "id") p = ap (id_or []) (sym h4) in
      record {
        presign = p;
        presigned = e;
        is_stored = store_file-IsStored w b s;
        answer = c;
        completed = rw same d;
        same_id = same;
      }
