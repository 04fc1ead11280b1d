-- ===== src/Publish/Uploaded.antt =====
-- The uploads of the page.
use mathlib.Core.Path.{subst}
use thassa.Base.{
  sym, ℕ, zero, suc, ◌+◌, ◌-◌, ◌≤◌, min, ◌≡◌, ◌==◌, refl, if_cases, List, [], ◌∷◌, ◌++◌, length,
  length-append, arith,
}
use thassa.Publish.{
  Upload, Page, initial, fresh_uploads, max_uploads, add_files, update, remove, Event, adds,
  progresses, uploaded, fails, removes, step, run,
}

-- The keys rise, and lie from the first number to below the second.
abbrev pub Rising : ℕ → ℕ → List Upload → Type 0
Rising low high [] = low ≤ high
Rising low high (u ∷ us) = (low ≤ u.key) × Rising (u.key + 1) high us

-- At most ten uploads, each with a key of its own.
pub record Tidy (s : Page) : Type 0 where
  pub few : length s.uploads ≤ max_uploads
  pub rising : Rising 0 s.next_key s.uploads

Rising-lower : (a b high : ℕ) (us : List Upload) → a ≤ b → Rising b high us → Rising a high us
Rising-lower a b high [] h r = omega arith
Rising-lower a b high (u ∷ us) h r = (omega (arith, r.0), r.1)

fresh_uploads-Rising : (n key : ℕ) → Rising key (key + n) (fresh_uploads n key)
unfolding fresh_uploads
fresh_uploads-Rising zero key = omega arith
fresh_uploads-Rising (suc n) key =
    let e : suc key + n ≡ key + suc n = omega arith in
    (
      omega arith,
      Rising-lower (key + 1) (suc key) (key + suc n) (fresh_uploads n (suc key)) (omega arith) (
          subst (λ (h : ℕ). Rising (suc key) h (fresh_uploads n (suc key))) e
            (fresh_uploads-Rising n (suc key))),
    )

append-Rising :
    (low mid high : ℕ) (us vs : List Upload)
    → Rising low mid us
    → Rising mid high vs
    → Rising low high (us ++ vs)
append-Rising low mid high [] vs r q = Rising-lower low mid high vs r q
append-Rising low mid high (u ∷ us) vs r q = (r.0, append-Rising (u.key + 1) mid high us vs r.1 q)

update-Rising :
    (key low high : ℕ) (f : Upload → Upload) (us : List Upload)
    → ((u : Upload) → (f u).key ≡ u.key)
    → Rising low high us
    → Rising low high (update key f us)
unfolding update
update-Rising key low high f [] same r = r
update-Rising key low high f (u ∷ us) same r =
    let rest = update-Rising key (u.key + 1) high f us same r.1 in
    subst (λ (k : ℕ). (low ≤ k) × Rising (k + 1) high (update key f us))
      (sym (if_cases (λ (v : Upload). v.key ≡ u.key) (u.key == key) (λ _. same u) (λ _. refl)))
      (r.0, rest)

length-update :
    (key : ℕ) (f : Upload → Upload) (us : List Upload) → length (update key f us) ≡ length us
unfolding update
length-update key f [] = refl
length-update key f (u ∷ us) = omega (arith, length-update key f us)

remove-Rising :
    (key low high : ℕ) (us : List Upload) → Rising low high us → Rising low high (remove key us)
unfolding remove
remove-Rising key low high [] r = r
remove-Rising key low high (u ∷ us) r =
    let rest = remove-Rising key (u.key + 1) high us r.1 in
    if_cases (Rising low high) (u.key == key)
      (λ _. Rising-lower low (u.key + 1) high (remove key us) (omega (arith, r.0)) rest)
      (λ _. (r.0, rest))

length-remove : (key : ℕ) (us : List Upload) → length (remove key us) ≤ length us
unfolding remove
length-remove key [] = omega arith
length-remove key (u ∷ us) = ground (arith, length-remove key us)

length-fresh_uploads : (n key : ℕ) → length (fresh_uploads n key) ≡ n
unfolding fresh_uploads
length-fresh_uploads zero key = refl
length-fresh_uploads (suc n) key = omega (arith, length-fresh_uploads n (suc key))

add_files-Tidy : (n : ℕ) (s : Page) → Tidy s → Tidy (add_files n s)
unfolding add_files
add_files-Tidy n s p =
    let k = min n (max_uploads - length s.uploads) in
    record {
      few = omega (
        arith,
        p.few,
        length-append s.uploads (fresh_uploads k s.next_key),
        length-fresh_uploads k s.next_key,
      );
      rising =
          append-Rising 0 s.next_key (s.next_key + k) s.uploads (fresh_uploads k s.next_key)
            p.rising (fresh_uploads-Rising k s.next_key);
    }

update-Tidy :
    (key : ℕ) (f : Upload → Upload) (s : Page)
    → ((u : Upload) → (f u).key ≡ u.key)
    → Tidy s
    → Tidy (record s { uploads = update key f s.uploads })
update-Tidy key f s same p = record {
  few = omega (arith, p.few, length-update key f s.uploads);
  rising = update-Rising key 0 s.next_key f s.uploads same p.rising;
}

step-Tidy : (e : Event) (s : Page) → Tidy s → Tidy (step e s)
unfolding step
step-Tidy (adds n) s p = add_files-Tidy n s p
step-Tidy (progresses key percent) s p = update-Tidy key _ s (λ u. refl) p
step-Tidy (uploaded key id) s p = update-Tidy key _ s (λ u. refl) p
step-Tidy (fails key) s p = update-Tidy key _ s (λ u. refl) p
step-Tidy (removes key) s p = record {
  few = omega (arith, p.few, length-remove key s.uploads);
  rising = remove-Rising key 0 s.next_key s.uploads p.rising;
}

run-from : (es : List Event) (s : Page) → Tidy s → Tidy (run es s)
run-from [] s p = p
run-from (e ∷ es) s p = run-from es (step e s) (step-Tidy e s p)

-- Whatever files are added and removed, and however the uploads go on and end: the page has ten
-- uploads at most, and no two with the same key.
pub run-Tidy : (es : List Event) → Tidy (run es initial)
run-Tidy es = run-from es initial (record { few = omega arith; rising = omega arith })
