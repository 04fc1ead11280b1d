-- ===== src/Api/Errors.antt =====
-- What the user reads when a call throws.
use thassa.Base.{
  Bool, true, false, ◌==◌, leb, ◌&&◌, ◌||◌, if◌then◌else◌, lower, map, Text, codes, text_eq, [],
  ◌∷◌, Option, none, some,
}
use thassa.Api.{Thrown, network_error, api_error, other_error}

abbrev starts : Text → Text → Bool
starts [] t = true
starts (c ∷ s) [] = false
starts (c ∷ s) (d ∷ t) = c == d && starts s t

-- Whether a text stands somewhere in another.
unfoldable pub contains : Text → Text → Bool
contains part [] = starts part []
contains part (c ∷ s) = starts part (c ∷ s) || contains part s

abbrev pub read_only : Text
read_only = codes "read-only while warped"

abbrev pub says : Option Text → Text → Bool
says none t = false
says (some e) t = text_eq e t

-- An empty text counts as none, as `||` has it.
abbrev pub text_or : Option Text → Text → Text
text_or none t = t
text_or (some []) t = t
text_or (some (c ∷ e)) t = c ∷ e

-- `/user rejected|denied|cancell?ed/i`.
abbrev pub is_rejection : Text → Bool
is_rejection message =
    let m = map lower message in
    contains (codes "user rejected") m
    || contains (codes "denied") m
    || contains (codes "canceled") m
    || contains (codes "cancelled") m

unfoldable pub error_message : Thrown → Text
error_message network_error = codes "Can't reach the server. Check your internet and try again."
error_message (api_error status error) =
    if status == 403 && says error read_only
    then codes "You're viewing as another user. Exit warp to make changes."
    else if status == 401 || status == 403
    then codes "You don't have access to do that."
    else if status == 404
    then codes "We couldn't find that."
    else if leb 500 status
    then codes "Something went wrong on our end. Please try again."
    else text_or error (codes "That didn't work. Please try again.")
error_message (other_error message) =
    if is_rejection message
    then codes "Signature request was canceled."
    else codes "That didn't work. Please try again."
