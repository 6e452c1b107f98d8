-- ===== src/EitpfCollector/Versions.antt =====
-- The versions that `EitpfCollector` of src/eitpf_collector.hh keeps, and when `Done` says yes.
use mirakc_arib.Prelude.{
  if◌then◌else◌, ℕ, suc, ◌+◌, ◌*◌, ◌^◌, ◌≡◌, refl, sym, ap, ◌∙◌, Bool, true, false, not, ◌&&◌, List,
  [], ◌∷◌, some, contains, length, lookup, keys, put_sorted, lookup-put_sorted, put_sorted-IsSorted,
  IsSorted, keys_contain, keys-IsDistinct, length-keys, IsWithin, pigeonhole, ◌==◌, ==_refl, ==_iff,
  has_value, Returns, Returns-map, Bool-cases, Option-cases, inl, inr, arith,
}
use mirakc_arib.SidSet
use mirakc_arib.SidSet.{SidSet}
use mirakc_arib.EitpfCollector.{EitpfCollector, same_versions, done}

-- The triple of a service of one stream.
abbrev triple_of : ℕ → ℕ → ℕ → ℕ
triple_of nid tsid sid = nid * 2 ^ 48 + tsid * 2 ^ 32 + sid * 2 ^ 16

abbrev triples : ℕ → ℕ → List ℕ → List ℕ
triples nid tsid [] = []
triples nid tsid (sid ∷ sids) = triple_of nid tsid sid ∷ triples nid tsid sids

contains-triples :
    (nid tsid sid : ℕ) (sids : List ℕ)
    → contains sid sids ≡ true
    → contains (triple_of nid tsid sid) (triples nid tsid sids) ≡ true
contains-triples nid tsid sid [] h = absurd cc
contains-triples nid tsid sid (x ∷ sids) h = elim (Bool-cases (sid == x)) [
  | inl same_ ↦
      let e : sid ≡ x = (==_iff sid x).0 same_ in
      rw e (ground (arith, ==_refl (triple_of nid tsid x)))
  | inr else_ ↦ ground (arith, contains-triples nid tsid sid sids)
]

length-triples : (nid tsid : ℕ) (sids : List ℕ) → length (triples nid tsid sids) ≡ length sids
length-triples nid tsid [] = refl
length-triples nid tsid (sid ∷ sids) = ap suc (length-triples nid tsid sids)

-- The versions of services that were asked for, of one stream.
abbrev pub IsAsked : ℕ → ℕ → List ℕ → List (ℕ × ℕ) → Type 0
IsAsked nid tsid sids versions =
    IsSorted versions × IsWithin (keys versions) (triples nid tsid sids)

pub put-IsAsked :
    (nid tsid sid version : ℕ) (sids : List ℕ) (versions : List (ℕ × ℕ))
    → contains sid sids ≡ true
    → IsAsked nid tsid sids versions
    → IsAsked nid tsid sids (put_sorted (triple_of nid tsid sid) version versions)
put-IsAsked nid tsid sid version sids versions asked (sorted, within) =
    let triple = triple_of nid tsid sid in
    let more = put_sorted triple version versions in
    (
      put_sorted-IsSorted triple version versions sorted,
      λ k h.
          let found = sym (keys_contain k more) ∙ h in
          elim (Bool-cases (triple == k)) [
            | inl same_ ↦
                let e : triple ≡ k = (==_iff triple k).0 same_ in
                rw (← e) (contains-triples nid tsid sid sids asked)
            | inr else_ ↦ within k (
                keys_contain k versions
                ∙ (rw (lookup-put_sorted triple k version versions, else_) at found))
          ],
    )

-- As many versions as services: each service has one.
all_asked :
    (nid tsid sid : ℕ) (sids : List ℕ) (versions : List (ℕ × ℕ))
    → IsAsked nid tsid sids versions
    → (length versions == length sids) ≡ true
    → contains sid sids ≡ true
    → has_value (lookup (triple_of nid tsid sid) versions) ≡ true
all_asked nid tsid sid sids versions (sorted, within) size asked =
    sym (keys_contain (triple_of nid tsid sid) versions)
    ∙ pigeonhole (keys versions) (triples nid tsid sids) (keys-IsDistinct versions sorted) within
        (ground (arith, length-keys versions, length-triples nid tsid sids))
        (triple_of nid tsid sid) (contains-triples nid tsid sid sids asked)

-- The second map has the versions of the first.
abbrev Agrees : List (ℕ × ℕ) → List (ℕ × ℕ) → Type 0
Agrees present following = (k v : ℕ) → lookup k present ≡ some v → lookup k following ≡ some v

Agrees-cons :
    (triple version version' : ℕ) (present following : List (ℕ × ℕ))
    → lookup triple following ≡ some version'
    → (version' == version) ≡ true
    → Agrees present following
    → Agrees ((triple, version) ∷ present) following
unfolding lookup
Agrees-cons triple version version' present following found same_ h k v at_ =
    elim (Bool-cases (triple == k)) [
      | inl here_ ↦
          let e : triple ≡ k = (==_iff triple k).0 here_ in
          let e' : version' ≡ version = (==_iff version' version).0 same_ in
          let e'' : some version ≡ some v = simp here_ at at_ in
          ap (λ x. lookup x following) (sym e) ∙ found ∙ ap some e' ∙ e''
      | inr there_ ↦ h k v (simp there_ at at_)
    ]

-- If all keys of the first map are keys of the second, the comparison throws nothing, and if it is
-- true, the second has the versions of the first.
same_versions_lem :
    (present following : List (ℕ × ℕ))
    → IsWithin (keys present) (keys following)
    → Returns (λ same. same ≡ true → Agrees present following) (same_versions present following)
unfolding same_versions lookup
same_versions_lem [] following h = λ e k v found. absurd cc
same_versions_lem ((triple, version) ∷ present) following h =
    let here_ = sym (keys_contain triple following) ∙ h triple (ground (arith, ==_refl triple)) in
    let rest = same_versions_lem present following (λ k h'. h k (ground arith)) in
    elim (Option-cases (lookup triple following)) [
      | inl none_ ↦ absurd (let no_ = sym (ap has_value none_) ∙ here_ in cc)
      | inr (version', some_) ↦ elim (Bool-cases (version' == version)) [
        | inr other_ ↦ simp (some_, other_) (λ e. absurd cc)
        | inl same_ ↦
            simp (some_, same_)
              (Returns-map (λ same. same ≡ true → Agrees present following)
                (λ same. same ≡ true → Agrees ((triple, version) ∷ present) following)
                (same_versions present following) rest
                (λ same agrees e.
                  Agrees-cons triple version version' present following some_ same_ (agrees e)))
      ]
    ]

-- Both maps are of services of one stream that were asked for.
abbrev pub IsValid : ℕ → ℕ → EitpfCollector → Type 0
IsValid nid tsid s =
    IsAsked nid tsid s.option.sids.set s.present_versions
    × IsAsked nid tsid s.option.sids.set s.following_versions

-- What is known of a service: the versions that were asked for, equal if both were.
abbrev IsKnown : EitpfCollector → ℕ → Type 0
IsKnown s triple =
    (s.option.present ≡ true → has_value (lookup triple s.present_versions) ≡ true)
    × (s.option.following ≡ true → has_value (lookup triple s.following_versions) ≡ true)
    × (s.option.present && s.option.following ≡ true
        → lookup triple s.present_versions ≡ lookup triple s.following_versions)

abbrev pub AllKnown : ℕ → ℕ → EitpfCollector → Type 0
AllKnown nid tsid s =
    (s.option.streaming ≡ false)
    × ((sid : ℕ) → contains sid s.option.sids.set ≡ true → IsKnown s (triple_of nid tsid sid))

agreed :
    (present following : List (ℕ × ℕ)) (k : ℕ)
    → Agrees present following
    → has_value (lookup k present) ≡ true
    → lookup k present ≡ lookup k following
agreed present following k h known = elim (Option-cases (lookup k present)) [
  | inl none_ ↦ absurd (let no_ = sym (ap has_value none_) ∙ known in cc)
  | inr (v, some_) ↦ some_ ∙ sym (h k v some_)
]

IsWithin-asked :
    (nid tsid : ℕ) (sids : List ℕ) (present following : List (ℕ × ℕ))
    → IsAsked nid tsid sids present
    → IsAsked nid tsid sids following
    → (length following == length sids) ≡ true
    → IsWithin (keys present) (keys following)
IsWithin-asked nid tsid sids present following p f size k h =
    pigeonhole (keys following) (triples nid tsid sids) (keys-IsDistinct following f.0) f.1
      (ground (arith, length-keys following, length-triples nid tsid sids)) k (p.1 k h)

-- The comparison at the end of `Done`, once the numbers of versions are right.
compared_lem :
    (nid tsid : ℕ) (s : EitpfCollector)
    → IsValid nid tsid s
    → s.option.streaming ≡ false
    → (s.option.present && not (length s.present_versions == length s.option.sids.set)) ≡ false
    → (s.option.following && not (length s.following_versions == length s.option.sids.set)) ≡ false
    → Returns
        (λ is_done. is_done ≡ true → AllKnown nid tsid s)
        (if s.option.present && s.option.following
          then same_versions s.present_versions s.following_versions
          else some true)
compared_lem nid tsid s (p, f) ends enough enough' =
    let sids = s.option.sids.set in
    let present_known : (sid : ℕ)
        → contains sid sids ≡ true
        → s.option.present ≡ true
        → has_value (lookup (triple_of nid tsid sid) s.present_versions) ≡ true =
      λ sid asked wanted. all_asked nid tsid sid sids s.present_versions p (ground arith) asked in
    let following_known : (sid : ℕ)
        → contains sid sids ≡ true
        → s.option.following ≡ true
        → has_value (lookup (triple_of nid tsid sid) s.following_versions) ≡ true =
      λ sid asked wanted. all_asked nid tsid sid sids s.following_versions f (ground arith) asked in
    elim (Bool-cases (s.option.present && s.option.following)) [
      | inr one ↦ rw one (λ e'. (
        ends,
        λ sid asked. (present_known sid asked, following_known sid asked, λ two. absurd cc),
      ))
      | inl two ↦ rw two (
          Returns-map (λ same. same ≡ true → Agrees s.present_versions s.following_versions) _ _
            (same_versions_lem s.present_versions s.following_versions (
              IsWithin-asked nid tsid sids s.present_versions s.following_versions p f
                (ground arith)))
            (λ same agrees e'. (
              ends,
              λ sid asked. (
                present_known sid asked,
                following_known sid asked,
                λ two'.
                    agreed s.present_versions s.following_versions (triple_of nid tsid sid)
                      (agrees e') (present_known sid asked (ground arith)),
              ),
            )))
    ]

pub done_lem :
    (nid tsid : ℕ) (s : EitpfCollector)
    → IsValid nid tsid s
    → Returns (λ is_done. is_done ≡ true → AllKnown nid tsid s) (done s)
unfolding done SidSet.size
done_lem nid tsid s v =
    let P : Bool → Type 0 = λ is_done. is_done ≡ true → AllKnown nid tsid s in
    let no_ : Returns P (some false) = λ e. absurd cc in
    let size = length s.option.sids.set in
    elim (Bool-cases s.option.streaming) [
      | inl endless ↦ let e : done s ≡ some false = simp endless refl in rw e no_
      | inr ends ↦ elim (Bool-cases (s.option.present && not (length s.present_versions == size))) [
        | inl few ↦ let e : done s ≡ some false = simp (ends, few) refl in rw e no_
        | inr enough ↦
            elim (Bool-cases (s.option.following && not (length s.following_versions == size))) [
              | inl few ↦ let e : done s ≡ some false = simp (ends, enough, few) refl in rw e no_
              | inr enough' ↦
                  let e : done s ≡ (
                      if s.option.present && s.option.following
                      then same_versions s.present_versions s.following_versions
                      else some true) =
                    simp (ends, enough, enough') refl in
                  rw e (compared_lem nid tsid s v ends enough enough')
            ]
      ]
    ]
