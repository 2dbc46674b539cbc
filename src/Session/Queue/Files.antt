-- ===== src/Session/Queue/Files.antt =====
-- The queue directory of agents/shared/distill_queue.py: names are distinct, and each file that
-- parses is named for its session.
use mathlib.Core.Path.{subst}
use ohmyboring.Prelude.{
  ◌≡◌, refl, sym, ap, ◌∙◌, Bool, true, false, ◌||◌, some, List, [], ◌∷◌, arith, if◌then◌else◌,
  filter, any, Text, text_eq, text_eq→eq, text_eq_sym, Bool-cases, inl, inr,
}
use ohmyboring.Session.Markers.{safe_id}
use ohmyboring.Session.Queue.{QueueItem, QueueFile, has_stem, put_file, unlink}

-- Equal texts answer alike.
text_eq_trans : (k s t : Text) → text_eq s t ≡ true → text_eq k s ≡ text_eq k t
text_eq_trans k s t h = ap (text_eq k) (text_eq→eq s t h)

pub any-put_file :
    (k : Text) (file : QueueFile) (fs : List QueueFile)
    → any (has_stem k) (put_file file fs) ≡ (text_eq k file.stem || any (has_stem k) fs)
unfolding put_file
any-put_file k file [] = refl
any-put_file k file (f ∷ fs) = elim (Bool-cases (text_eq file.stem f.stem)) [
  | inl e ↦ rw e (ground (arith, text_eq_trans k file.stem f.stem e))
  | inr e ↦ rw e (ground (arith, any-put_file k file fs))
]

other_stem : (k j t : Text) → text_eq j t ≡ false → text_eq j k ≡ true → text_eq k t ≡ false
other_stem k j t apart same = subst (λ x. text_eq x t ≡ false) (text_eq→eq j k same) apart

pub any-unlink :
    (k j : Text) (fs : List QueueFile)
    → any (has_stem k) (unlink j fs) ≡ (if text_eq j k then false else any (has_stem k) fs)
unfolding unlink
any-unlink k j [] = ground arith
any-unlink k j (f ∷ fs) = elim (Bool-cases (text_eq j f.stem)) [
  | inl e ↦ rw e (any-unlink k j fs ∙ ground (arith, text_eq_trans k j f.stem e, text_eq_sym k j))
  | inr e ↦ rw e (ground (arith, any-unlink k j fs, other_stem k j f.stem e))
]

-- What remains of a queue was in it.
pub any-filter :
    (p : QueueFile → Bool) (k : Text) (fs : List QueueFile)
    → any (has_stem k) (filter p fs) ≡ true
    → any (has_stem k) fs ≡ true
any-filter p k [] h = h
any-filter p k (f ∷ fs) h = ground (arith, any-filter p k fs)

abbrev pub IsNamed : QueueFile → Type 0
IsNamed f = (item : QueueItem) → f.item ≡ some item → safe_id item.session_id ≡ f.stem

-- No two files have one name, and a file that parses is named for its session.
abbrev pub IsDirectory : List QueueFile → Type 0
IsDirectory [] = Unit
IsDirectory (f ∷ fs) = IsNamed f × (any (has_stem f.stem) fs ≡ false) × IsDirectory fs

pub put_file-IsDirectory :
    (file : QueueFile) (fs : List QueueFile)
    → IsNamed file
    → IsDirectory fs
    → IsDirectory (put_file file fs)
unfolding put_file
put_file-IsDirectory file [] n h = (n, refl, tt)
put_file-IsDirectory file (f ∷ fs) n h = elim (Bool-cases (text_eq file.stem f.stem)) [
  | inl e ↦
      rw e
        (n, subst (λ t. any (has_stem t) fs ≡ false) (sym (text_eq→eq file.stem f.stem e)) h.1, h.2)
  | inr e ↦ rw e (
    h.0,
    any-put_file f.stem file fs ∙ ground (arith, h.1, text_eq_sym f.stem file.stem),
    put_file-IsDirectory file fs n h.2,
  )
]

pub filter-IsDirectory :
    (p : QueueFile → Bool) (fs : List QueueFile) → IsDirectory fs → IsDirectory (filter p fs)
filter-IsDirectory p [] h = h
filter-IsDirectory p (f ∷ fs) h = elim (Bool-cases (p f)) [
  | inl e ↦ rw e (h.0, absent, filter-IsDirectory p fs h.2)
  | inr e ↦ rw e (filter-IsDirectory p fs h.2)
]
  where
    absent : any (has_stem f.stem) (filter p fs) ≡ false
    absent = elim (Bool-cases (any (has_stem f.stem) (filter p fs))) [
      | inl found ↦ cc (any-filter p f.stem fs found, h.1)
      | inr gone ↦ gone
    ]
