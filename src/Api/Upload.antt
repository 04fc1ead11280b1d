-- ===== src/Api/Upload.antt =====
-- mobile/lib/api.ts: `uploadMedia`. What the file system and the storage answer is a parameter, and so is
-- whether the signal is aborted at each point where it is looked at.
use thassa.Base.{
  ℕ, Bool, true, false, if◌then◌else◌, Text, codes, [], ◌∷◌, ◌++◌, Option, none, some,
}
use thassa.Json.{Json, null, num, str, obj, fields, field}
use thassa.Api.{Outcome, returns, throws, other_error}
use thassa.Api.Mobile.{Net, is_ok, post}
use thassa.Format.Money.{decimal}

-- `put` is the status of the upload, `none` where there is no result.
pub record Storage : Type 0 where
  pub is_web : Bool
  pub aborted_at_start : Bool
  pub aborted_after : Bool
  pub blob : Outcome (Unit {0})
  pub put : Outcome (Option ℕ)

pub record Uploaded : Type 0 where
  pub id : Text
  pub url : Text

infixl 5 ◌>>=◌ ◌>>◌
abbrev pub ◌>>=◌ : {A B : Type 0} → Outcome A → (A → Outcome B) → Outcome B
returns a >>= f = f a
throws e >>= f = throws e

abbrev pub ◌>>◌ : {A B : Type 0} → Outcome A → Outcome B → Outcome B
m >> k = m >>= λ _. k

-- A member in a template text, `undefined` where there is none. The ids and addresses are texts.
abbrev text_in : Option Json → Text
text_in none = codes "undefined"
text_in (some null) = codes "null"
text_in (some (num n)) = decimal n
text_in (some (str t)) = t
text_in (some (obj fs)) = codes "[object Object]"

abbrev pub member : Text → Json → Text
member name null = codes "undefined"
member name (num n) = codes "undefined"
member name (str t) = codes "undefined"
member name (obj fs) = text_in (field name fs)

abbrev pub live : Bool → Outcome (Unit {0})
live true = throws (other_error (codes "upload aborted"))
live false = returns tt

abbrev failure : Option ℕ → Text
failure none = codes "upload failed (network)"
failure (some status) = codes "upload failed (" ++ decimal status ++ codes ")"

abbrev pub stored : Option ℕ → Outcome (Unit {0})
stored none = throws (other_error (failure none))
stored (some status) =
    if is_ok status then returns tt else throws (other_error (failure (some status)))

abbrev pub complete_path : Text → Text
complete_path id = codes "/v1/media/" ++ id ++ codes "/complete"

-- What lies between the two requests.
unfoldable pub store_file : Storage → Outcome (Unit {0})
store_file w =
    if w.is_web
    then (do live w.aborted_after; w.blob; status ← w.put; stored status)
    else (do status ← w.put; live w.aborted_after; stored status)

-- `presigning` and `completing` are the network at the two requests, with their keys.
unfoldable pub upload_media : Net → Text → Net → Text → Storage → Text → Outcome Uploaded
upload_media presigning key completing key' w content_type = do
  live w.aborted_at_start
  presign ←
      (post presigning key (codes "/v1/media")
        (some (obj (fields ((codes "content_type", str content_type) ∷ []))))).0
  store_file w
  (post completing key' (complete_path (member (codes "id") presign)) none).0
  returns (record { id = member (codes "id") presign; url = member (codes "public_url") presign })
