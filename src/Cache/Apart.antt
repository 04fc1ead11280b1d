-- ===== src/Cache/Apart.antt =====
-- Entries under different keys have different files, through removals.
use thassa.Base.{
  ◌<◌, ◌≡◌, refl, sym, ap, ◌∙◌, ◌≢◌, inl, inr, true, false, Bool-cases, Text, text_eq, text_eq_iff,
  List, [], ◌∷◌, some, arith,
}
use thassa.Cache.{CacheMeta, FileName, dat, bin, file_eq}
use thassa.Cache.Entries.{find, find-All, find-delete_ne, find-delete_self}
use thassa.Cache.Evict.{Cache, Deletes, remove_entry}
use thassa.Cache.Invariant.{number, Rising, Inv, Shrinks, here, next, Shrinks-Inv}

pub file_eq_refl : (f : FileName) → file_eq f f ≡ true
file_eq_refl (dat n) = ground arith
file_eq_refl (bin n) = ground arith

number_of_file_eq : (f g : FileName) → file_eq f g ≡ true → number f ≡ number g
number_of_file_eq (dat a) (dat b) h = ground arith
number_of_file_eq (bin a) (bin b) h = ground arith
number_of_file_eq (dat a) (bin b) h = absurd (ground arith)
number_of_file_eq (bin a) (dat b) h = absurd (ground arith)

pub file_ne : (f g : FileName) → number f ≢ number g → file_eq f g ≡ false
file_ne f g h = elim (Bool-cases (file_eq f g)) [
  | inl e ↦ absurd (h (number_of_file_eq f g e))
  | inr e ↦ e
]

-- Entries under two keys have two files.
files_apart :
    (ms : List CacheMeta) (j k : Text) (x y : CacheMeta)
    → Rising ms
    → j ≢ k
    → find j ms ≡ some x
    → find k ms ≡ some y
    → number x.file ≢ number y.file
unfolding find
files_apart [] j k x y r ne a b = absurd (ground arith)
files_apart (m ∷ ms) j k x y r ne a b = elim (Bool-cases (text_eq m.key j)) [
  | inl at_j ↦ elim (Bool-cases (text_eq m.key k)) [
    | inl at_k ↦ absurd (ne (sym ((text_eq_iff m.key j).0 at_j) ∙ (text_eq_iff m.key k).0 at_k))
    | inr past_k ↦ λ e.
        let above : number m.file < number y.file =
          find-All (λ z. number m.file < number z.file) k ms y (ground arith) r.0 in
        let here_x : m ≡ x = ground arith in
        omega (arith, above, ap (λ (z : CacheMeta). number z.file) here_x)
  ]
  | inr past_j ↦ elim (Bool-cases (text_eq m.key k)) [
    | inl at_k ↦ λ e.
        let above : number m.file < number x.file =
          find-All (λ z. number m.file < number z.file) j ms x (ground arith) r.0 in
        let here_y : m ≡ y = ground arith in
        omega (arith, above, ap (λ (z : CacheMeta). number z.file) here_y)
    | inr past_k ↦ files_apart ms j k x y r.1 ne (ground arith) (ground arith)
  ]
]

untouched :
    (d : Deletes) (m : CacheMeta) (e : Cache) (x : CacheMeta)
    → file_eq m.file x.file ≡ false
    → (remove_entry d m e).disk x.file ≡ e.disk x.file
unfolding remove_entry
untouched d m e x apart = elim (Bool-cases (d m.file)) [
  | inl gone ↦ rw (gone, apart)
  | inr kept ↦ rw kept
]

-- An entry that removals leave stood there before, with the same file.
pub Shrinks-survivor :
    {d : Deletes} {c e : Cache} (j : Text) (x : CacheMeta)
    → Inv c
    → Shrinks d c e
    → find j e.manifest.entries ≡ some x
    → (find j c.manifest.entries ≡ some x) × (e.disk x.file ≡ c.disk x.file)
unfolding remove_entry
Shrinks-survivor j x i here f = (f, refl)
Shrinks-survivor {d} j x i (next e m s found) f = elim (Bool-cases (text_eq m.key j)) [
  | inl same ↦
      let gone = find-delete_self m.key e.manifest.entries (Shrinks-Inv s i).distinct in
      absurd (ground (arith, text_eq_iff m.key j))
  | inr other ↦
      let ne : j ≢ m.key = λ q. ground (arith, text_eq_iff m.key j) in
      let g = sym (find-delete_ne m.key j e.manifest.entries ne) ∙ f in
      let (stood, same_file) = Shrinks-survivor j x i s g in
      let apart = file_ne m.file x.file (
        files_apart e.manifest.entries m.key j m x (Shrinks-Inv s i).rising (λ q. ne (sym q)) found
          g) in
      (stood, untouched d m e x apart ∙ same_file)
]
