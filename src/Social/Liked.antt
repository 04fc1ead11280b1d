-- ===== src/Social/Liked.antt =====
-- What the counts of the post cards keep to.
use thassa.Base.{
  ℕ, ◌+◌, ◌<◌, ◌≡◌, ◌↔◌, refl, ap, not, if◌then◌else◌, Bool, true, false, List, [], ◌∷◌, some,
  arith,
}
use thassa.Social.Likes.{
  Mobile, Request, toggle_like, take_back, step_likes, Web, web_toggle, web_take_back,
}

abbrev one_if : Bool → ℕ
one_if b = if b then 1 else 0

-- The count is `others` and the user's own like.
abbrev pub Counts : ℕ → Mobile → Type 0
Counts others s = s.ups ≡ s.downs + others + one_if s.liked

toggle_like-Counts :
    (others : ℕ) (force_on : Bool) (s : Mobile)
    → Counts others s
    → Counts others (toggle_like force_on s).0
unfolding toggle_like
toggle_like-Counts others force_on s h = ground (arith, h)

-- The request of a press goes from one state to the other.
toggle_like-flips :
    (force_on : Bool) (s : Mobile) (r : Request)
    → (toggle_like force_on s).1 ≡ some r
    → r.was ≡ not r.now
unfolding toggle_like
toggle_like-flips force_on s r h = ground (arith, h)

-- A count that fits the like is kept by every press, and by a failure exactly if the card still
-- shows what its request asked for.
pub take_back-Counts :
    (others : ℕ) (r : Request) (s : Mobile)
    → r.was ≡ not r.now
    → Counts others s
    → Counts others (take_back r s) ↔ (s.liked ≡ r.now)
unfolding take_back
take_back-Counts others r s w h = ground (arith, w, h)

pub web_take_back-web_toggle :
    (s : Web)
    → (web_take_back (web_toggle s).liked (web_toggle s) ≡ s) ↔ (s.liked ≡ true → 0 < s.likes)
unfolding web_toggle web_take_back
web_take_back-web_toggle s =
    (λ e l. back s.liked s.likes (ap (λ (w : Web). w.likes) e) l, λ h. there s.liked s.likes h)
  where
    back :
        (b : Bool) (n : ℕ) → step_likes (not (not b)) (step_likes (not b) n) ≡ n → b ≡ true → 0 < n
    back b n e l = ground (arith, e, l)

    there :
        (b : Bool) (n : ℕ)
        → (b ≡ true → 0 < n)
        → web_take_back (not b) (record { liked = not b; likes = step_likes (not b) n })
          ≡ record { liked = b; likes = n }
    there true n h = ap (λ (k : ℕ). record { liked = true; likes = k }) (omega (arith, h refl))
    there false n h = ap (λ (k : ℕ). record { liked = false; likes = k }) (omega arith)

abbrev pub presses : List Bool → Mobile → Mobile
presses [] s = s
presses (f ∷ fs) s = presses fs (toggle_like f s).0

presses-Counts :
    (others : ℕ) (fs : List Bool) (s : Mobile) → Counts others s → Counts others (presses fs s)
presses-Counts others [] s h = h
presses-Counts others (f ∷ fs) s h =
    presses-Counts others fs (toggle_like f s).0 (toggle_like-Counts others f s h)

-- On a card whose count fits its like, a press sends a request, any presses follow, and then the
-- request fails: the count still fits exactly if the card shows what the request asked for.
pub take_back-presses :
    (others : ℕ) (s : Mobile) (force_on : Bool) (r : Request) (fs : List Bool)
    → Counts others s
    → (toggle_like force_on s).1 ≡ some r
    → Counts others (take_back r (presses fs (toggle_like force_on s).0))
      ↔ ((presses fs (toggle_like force_on s).0).liked ≡ r.now)
take_back-presses others s force_on r fs h e =
    take_back-Counts others r _ (toggle_like-flips force_on s r e)
      (presses-Counts others fs (toggle_like force_on s).0 (toggle_like-Counts others force_on s h))
