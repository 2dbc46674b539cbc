-- ===== src/Ingest/Chunk/Groups.antt =====
-- The loop of `_pack` of src/ohmyboring/ingest/chunk.py: how the sections are taken in groups.
use mathlib.Core.List.{map-append}
use mathlib.Core.Path.{subst}
use ohmyboring.Prelude.{
  ◌≡◌, refl, ap, sym, ◌∙◌, inl, inr, ◌⊎◌, Bool, true, false, not, ◌&&◌, List, [], ◌∷◌, ◌++◌, map,
  flatten, flatten-snoc, append-nil, append_assoc, arith, All, All-append, Text, Bool-cases,
  is_empty, is_empty-true, is_empty-false, NonEmpty, join_lines, join_lines-append, length,
  length-append,
}
use ohmyboring.Prelude.Int.{ℤ, pos, negsuc, leb_ℤ}
use ohmyboring.Ingest.Chunk.{
  Packing, piece, flush, added_len, pack_step, pack_loop, default_overlap, fixed_chunks,
}
use ohmyboring.Ingest.Chunk.Fixed.{fixed_chunks_whole}
use ohmyboring.Ingest.Chunk.Greedy.{
  Overfull, closed_groups, Opens, Opens-next, Opens-longer, oversized-Overfull, oversized-Opens,
}

-- The bodies of the chunks that a list of units gives, each unit cut by itself.
unfoldable pub unit_cuts : ℤ → List Text → List Text
unit_cuts budget [] = []
unit_cuts budget (u ∷ us) = fixed_chunks u budget default_overlap ++ unit_cuts budget us

unit_cuts-append :
    (budget : ℤ) (us vs : List Text)
    → unit_cuts budget (us ++ vs) ≡ unit_cuts budget us ++ unit_cuts budget vs
unfolding unit_cuts
unit_cuts-append budget [] vs = refl
unit_cuts-append budget (u ∷ us) vs =
    ap (λ r. fixed_chunks u budget default_overlap ++ r) (unit_cuts-append budget us vs)
    ∙ sym (
        append_assoc (fixed_chunks u budget default_overlap) (unit_cuts budget us)
          (unit_cuts budget vs))

not-false : (b : Bool) → not b ≡ false → b ≡ true
not-false true h = refl
not-false false h = cc

-- A group of sections that is within the budget when joined, or is a single section.
abbrev pub IsSized : ℤ → List Text → Type 0
IsSized budget group = (leb_ℤ (pos (length (join_lines group))) budget ≡ true) ⊎ (length group ≡ 1)

module _ (header : Text) (budget : ℤ) where
  -- The chunks written for the sections `done`, which were taken in groups. A group is within the
  -- budget or is one section.
  pub record IsWritten (groups : List (List Text)) (done : List Text) (out : List Text)
      : Type 0 where
    pub filled : All NonEmpty groups
    pub sized : All (IsSized budget) groups
    pub same : flatten groups ≡ done
    pub written : out ≡ map (piece header) (unit_cuts budget (map join_lines groups))

  IsWritten-snoc :
      {groups : List (List Text)} {done out : List Text} (group : List Text)
      → NonEmpty group
      → IsSized budget group
      → IsWritten groups done out
      → IsWritten
          (groups ++ group ∷ [])
          (done ++ group)
          (out ++ map (piece header) (fixed_chunks (join_lines group) budget default_overlap))
  unfolding unit_cuts
  IsWritten-snoc {groups} group some_line size w = record {
    filled = All-append NonEmpty groups (group ∷ []) w.filled (some_line, tt);
    sized = All-append (IsSized budget) groups (group ∷ []) w.sized (size, tt);
    same = flatten-snoc groups group ∙ ap (λ r. r ++ group) w.same;
    written = simp (w.written, map-append, unit_cuts-append, append-nil);
  }

  -- A waiting group is within the budget, and its joined length is known.
  pub record IsPacked (done : List Text) (s : Packing) : Type 0 where
    pub before : List Text
    pub groups : List (List Text)
    pub closed : IsWritten groups before s.out
    pub opens : Opens budget groups s.current
    pub split : before ++ s.current ≡ done
    pub exact : s.current_len ≡ length (join_lines s.current)
    pub fits : (s.current ≡ []) ⊎ (leb_ℤ (pos s.current_len) budget ≡ true)

  cut_fitting :
      (body : Text)
      → leb_ℤ (pos (length body)) budget ≡ true
      → fixed_chunks body budget default_overlap ≡ body ∷ []
  cut_fitting body h = go budget h
    where
      go :
          (b : ℤ)
          → leb_ℤ (pos (length body)) b ≡ true
          → fixed_chunks body b default_overlap ≡ body ∷ []
      go (negsuc n) h = ground arith
      go (pos n) h = fixed_chunks_whole body n default_overlap (inr (ground arith))

  waiting-fits :
      {done : List Text} (s : Packing)
      → IsPacked done s
      → NonEmpty s.current
      → leb_ℤ (pos (length (join_lines s.current))) budget ≡ true
  waiting-fits s p some_line = elim p.fits [
    | inl none_waiting ↦ absurd (subst NonEmpty none_waiting some_line)
    | inr fit ↦ subst (λ n. leb_ℤ (pos n) budget ≡ true) p.exact fit
  ]

  waiting-IsWritten :
      (done : List Text) (s : Packing) (p : IsPacked done s)
      → NonEmpty s.current
      → IsWritten
          (p.groups ++ s.current ∷ [])
          done
          (s.out ++ piece header (join_lines s.current) ∷ [])
  waiting-IsWritten done s p some_line =
      subst (λ cuts. IsWritten (p.groups ++ s.current ∷ []) done (s.out ++ map (piece header) cuts))
        (cut_fitting (join_lines s.current) (waiting-fits s p some_line))
        (subst
          (λ d. IsWritten (p.groups ++ s.current ∷ []) d (
            s.out
            ++ map (piece header) (fixed_chunks (join_lines s.current) budget default_overlap)))
          p.split (IsWritten-snoc s.current some_line (inl (waiting-fits s p some_line)) p.closed))

  pub flush-IsWritten :
      (done : List Text) (s : Packing) (p : IsPacked done s)
      → IsWritten (closed_groups p.groups s.current) done (flush header s)
  unfolding flush
  flush-IsWritten done s p = elim (Bool-cases (is_empty s.current)) [
    | inl e ↦ rw e (
        subst (λ d. IsWritten p.groups d s.out)
          (cc (append-nil p.before, p.split, is_empty-true s.current e)) p.closed)
    | inr e ↦ rw e (waiting-IsWritten done s p (is_empty-false s.current e))
  ]

  join_lines-singleton : (section : Text) → join_lines (section ∷ []) ≡ section
  unfolding join_lines
  join_lines-singleton section = refl

  added_len-lem :
      (s : Packing) (section : Text)
      → s.current_len ≡ length (join_lines s.current)
      → added_len s section ≡ length (join_lines (s.current ++ section ∷ []))
  added_len-lem s section exact = elim (Bool-cases (is_empty s.current)) [
    | inl e ↦ rw e (unfold join_lines in cc (is_empty-true s.current e))
    | inr e ↦
        rw (e, join_lines-append s.current (section ∷ []) (is_empty-false s.current e) tt)
          (unfold join_lines in omega (arith, length-append {0}))
  ]

  -- The three branches of a round.
  oversized-IsPacked :
      (done : List Text) (s : Packing) (section : Text) (p : IsPacked done s)
      → IsWritten (closed_groups p.groups s.current ++ (section ∷ []) ∷ []) (done ++ section ∷ []) (
          flush header s
          ++ map (λ cut. piece header cut) (fixed_chunks section budget default_overlap))
  oversized-IsPacked done s section p =
      subst
        (λ t.
          IsWritten (closed_groups p.groups s.current ++ (section ∷ []) ∷ []) (done ++ section ∷ [])
            (flush header s ++ map (piece header) (fixed_chunks t budget default_overlap)))
        (join_lines-singleton section)
        (IsWritten-snoc (section ∷ []) tt (inr refl) (flush-IsWritten done s p))

  full-Overfull :
      (s : Packing) (section : Text)
      → s.current_len ≡ length (join_lines s.current)
      → (not (is_empty s.current) && not (leb_ℤ (pos (added_len s section)) budget)) ≡ true
      → Overfull budget s.current (section ∷ [])
  full-Overfull s section exact full =
      subst (λ n. leb_ℤ (pos n) budget ≡ false) (added_len-lem s section exact)
        (no_room (is_empty s.current) (leb_ℤ (pos (added_len s section)) budget) full)
    where
      no_room : (a b : Bool) → (not a && not b) ≡ true → b ≡ false
      no_room a b h = ground arith

  room_fits :
      (s : Packing) (section : Text)
      → leb_ℤ (pos (length section)) budget ≡ true
      → (not (is_empty s.current) && not (leb_ℤ (pos (added_len s section)) budget)) ≡ false
      → leb_ℤ (pos (added_len s section)) budget ≡ true
  room_fits s section small room = elim (Bool-cases (is_empty s.current)) [
    | inl e ↦ rw e small
    | inr e ↦ rw e (not-false _ (rw e at room))
  ]

  pack_step-IsPacked :
      (done : List Text) (s : Packing) (section : Text)
      → IsPacked done s
      → IsPacked (done ++ section ∷ []) (pack_step header budget s section)
  unfolding pack_step
  pack_step-IsPacked done s section p = elim (Bool-cases (leb_ℤ (pos (length section)) budget)) [
    | inl small ↦
        elim (Bool-cases
          (not (is_empty s.current) && not (leb_ℤ (pos (added_len s section)) budget))) [
            | inl full ↦
                rw (small, full)
                  (record {
                    before = done;
                    groups = closed_groups p.groups s.current;
                    closed = flush-IsWritten done s p;
                    opens =
                        Opens-next budget p.groups s.current section p.opens
                          (λ some_line. full-Overfull s section p.exact full);
                    split = refl;
                    exact = unfold join_lines in refl;
                    fits = inr small;
                  })
            | inr room ↦
                rw (small, room)
                  (record {
                    before = p.before;
                    groups = p.groups;
                    closed = p.closed;
                    opens = Opens-longer budget p.groups s.current section p.opens;
                    split =
                        sym (append_assoc p.before s.current (section ∷ []))
                        ∙ ap (λ r. r ++ section ∷ []) p.split;
                    exact = added_len-lem s section p.exact;
                    fits = inr (room_fits s section small room);
                  })
          ]
    | inr big ↦ rw big (record {
      before = done ++ section ∷ [];
      groups = closed_groups p.groups s.current ++ (section ∷ []) ∷ [];
      closed = oversized-IsPacked done s section p;
      opens = oversized-Opens budget (closed_groups p.groups s.current) section big (
          Opens-next budget p.groups s.current section p.opens
            (λ some_line. oversized-Overfull budget s.current section big));
      split = append-nil _;
      exact = unfold join_lines in refl;
      fits = inl refl;
    })
  ]

  pub pack_loop-IsPacked :
      (done : List Text) (s : Packing) (rest : List Text)
      → IsPacked done s
      → IsPacked (done ++ rest) (pack_loop header budget s rest)
  unfolding pack_loop
  pack_loop-IsPacked done s [] p = subst (λ d. IsPacked d s) (sym (append-nil done)) p
  pack_loop-IsPacked done s (section ∷ rest) p =
      subst (λ d. IsPacked d (pack_loop header budget (pack_step header budget s section) rest))
        (append_assoc done (section ∷ []) rest)
        (pack_loop-IsPacked (done ++ section ∷ []) (pack_step header budget s section) rest
          (pack_step-IsPacked done s section p))

  pub start-IsPacked : IsPacked [] (record { out = []; current = []; current_len = 0 })
  unfolding flatten unit_cuts join_lines
  start-IsPacked = record {
    before = [];
    groups = [];
    opens = λ x. tt;
    closed = record { filled = tt; sized = tt; same = refl; written = refl };
    split = refl;
    exact = refl;
    fits = inl refl;
  }
