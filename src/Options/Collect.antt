-- ===== src/Options/Collect.antt =====
-- `collect-eits` and `filter-program` of src/main.cc: what is made of lists on the command line.
use mirakc_arib.Prelude.{
  ℕ, ◌^◌, ◌%◌, ◌<◌, ◌≡◌, refl, sym, ap, ◌∙◌, true, false, not, ◌&&◌, ◌||◌, some, List, [], ◌∷◌, ℤ,
  pos, negsuc, ==_iff, All, map, contains, length, ltb_ℤ, leb_ℤ, insert, ◌==◌, ◌>>◌, assert,
  Returns, Returns-bind, Returns-map, Ensures, Ensures-map, Ensures-assert, Ensures-asserted,
  Ensures-both, contains-insert, ==_refl, both, Option-cases, inl, inr, arith,
}
use mirakc_arib.Stoi.{stoi}
use mirakc_arib.Stoi.Digits.{decimal}
use mirakc_arib.SidSet as SidSet
use mirakc_arib.SidSet.{SidSet, add_strings, contain}
use mirakc_arib.SidSet.Read.{HasAdded, add_strings-decimal}
use mirakc_arib.EitCollector.{EitCollector, EitCollectorOption, create}
use mirakc_arib.Options.{
  to_uint64, load_sid_set, load_tags, load_component_tags, CollectEitsArgs,
  load_eit_collector_option,
}

-- The set has the numbers of the list and no others.
abbrev pub IsSetOf : List ℕ → SidSet → Type 0
IsSetOf sids s = (k : ℕ) → contain s k ≡ contains k sids

load_sid_set-decimal :
    (sids : List ℕ)
    → All (λ sid. sid < 2 ^ 16) sids
    → Returns (IsSetOf sids) (load_sid_set (some (map decimal sids)))
unfolding load_sid_set contain
load_sid_set-decimal sids h =
    Returns-map (HasAdded sids SidSet.new) (IsSetOf sids)
      (add_strings (map decimal sids) SidSet.new) (add_strings-decimal sids SidSet.new h)
      (λ s added k. added k ∙ ground arith)

-- The collector that is made of the options has them.
abbrev pub Collects : List ℕ → List ℕ → EitCollectorOption → Type 0
Collects sids xsids option =
    IsSetOf sids option.sids
    × IsSetOf xsids option.xsids
    × Returns (λ (s : EitCollector). s.option ≡ option) (create option)

-- When `collect-eits` is given lists of service identifiers of 16 bits to include and to exclude, and
-- not both `--only-actual` and `--only-others`, its options have these lists and the collector is made
-- of them without a failed assertion.
pub load_eit_collector_option-Collects :
    (sids xsids : List ℕ) (args : CollectEitsArgs)
    → All (λ sid. sid < 2 ^ 16) sids
    → All (λ sid. sid < 2 ^ 16) xsids
    → args.sids ≡ some (map decimal sids)
    → args.xsids ≡ some (map decimal xsids)
    → args.only_actual && args.only_others ≡ false
    → Returns (Collects sids xsids) (load_eit_collector_option args)
unfolding load_eit_collector_option create
load_eit_collector_option-Collects sids xsids args small small' e e' one =
    let ok : not args.only_others || not args.only_actual ≡ true = ground arith in
    rw (e, e')
      (Returns-bind (IsSetOf sids) (Collects sids xsids) (load_sid_set (some (map decimal sids))) _
        (load_sid_set-decimal sids small)
        (λ s h.
          Returns-bind (IsSetOf xsids) (Collects sids xsids)
            (load_sid_set (some (map decimal xsids))) _ (load_sid_set-decimal xsids small')
            (λ s' h'. (h, h', rw ok refl))))

abbrev pub AreTags : List ℕ → Type 0
AreTags tags = All (λ tag. tag < 256) tags

AreTags-insert : (tag : ℕ) (tags : List ℕ) → tag < 256 → AreTags tags → AreTags (insert tag tags)
AreTags-insert tag tags h hs = both AreTags (contains tag tags) tags (tag ∷ tags) hs (h, hs)

-- The code and the cast agree on a number that passed the checks.
abbrev pub IsTagOf : ℤ → ℕ → Type 0
IsTagOf val tag = (val ≡ pos tag) × (tag < 256)

checked_tag :
    (val : ℤ)
    → not (ltb_ℤ val (pos 0)) ≡ true
    → not (leb_ℤ (pos 256) val) ≡ true
    → IsTagOf val (to_uint64 val % 256)
unfolding to_uint64
checked_tag (pos n) h h' =
    let small : n < 256 = ground arith in
    let same : n % 2 ^ 64 % 256 ≡ n = omega arith in (ap pos (sym same), omega arith)
checked_tag (negsuc n) h h' = absurd (ground arith)

-- Each string is the decimal number of a tag of 8 bits that is in the set, from the first character to
-- the last.
abbrev pub AreRead : List (List ℕ) → List ℕ → Type 0
AreRead strs tags =
    All (λ str. (tag : ℕ) × (stoi str ≡ some (pos tag, length str)) × (contains tag tags ≡ true))
      strs

load_tags-grows :
    (strs : List (List ℕ)) (tags : List ℕ) (tag : ℕ)
    → contains tag tags ≡ true
    → Ensures (λ tags'. contains tag tags' ≡ true) (load_tags strs tags)
unfolding load_tags
load_tags-grows [] tags tag h = h
load_tags-grows (str ∷ strs) tags tag h =
    let P = λ (tags' : List ℕ). contains tag tags' ≡ true in
    elim (Option-cases (stoi str)) [
      | inl none_ ↦ simp none_ tt
      | inr ((val, read), some_) ↦ simp some_ (
          Ensures-assert P (read == length str) _ (
            Ensures-assert P (not (ltb_ℤ val (pos 0))) _ (
              Ensures-assert P (not (leb_ℤ (pos 256) val)) _ (
                load_tags-grows strs (insert (to_uint64 val % 256) tags) tag
                  (contains-insert tag (to_uint64 val % 256) tags ∙ ground arith)))))
    ]

load_tags-AreRead :
    (strs : List (List ℕ)) (tags : List ℕ)
    → AreTags tags
    → Ensures (λ tags'. AreTags tags' × AreRead strs tags') (load_tags strs tags)
unfolding load_tags
load_tags-AreRead [] tags h = (h, tt)
load_tags-AreRead (str ∷ strs) tags h =
    let P = λ (tags' : List ℕ). AreTags tags' × AreRead (str ∷ strs) tags' in
    elim (Option-cases (stoi str)) [
      | inl none_ ↦ simp none_ tt
      | inr ((val, read), some_) ↦
          let tag = to_uint64 val % 256 in
          let more = insert tag tags in
          let e : load_tags (str ∷ strs) tags ≡ (
              assert (read == length str)
              >> (assert (not (ltb_ℤ val (pos 0)))
                  >> (assert (not (leb_ℤ (pos 256) val)) >> load_tags strs more))) =
            simp some_ refl in
          rw e (
            Ensures-asserted P (read == length str) _ (λ whole.
              Ensures-asserted P (not (ltb_ℤ val (pos 0))) _ (λ positive.
                Ensures-asserted P (not (leb_ℤ (pos 256) val)) _ (λ small.
                  let (same_, fits) = checked_tag val positive small in
                  let here_ : contains tag more ≡ true =
                    contains-insert tag tag tags ∙ ground (arith, ==_refl tag) in
                  let all_ : read ≡ length str = (==_iff read (length str)).0 whole in
                  let from : stoi str ≡ some (pos tag, length str) =
                    some_ ∙ ap (λ v. some (v, read)) same_ ∙ ap (λ n. some (pos tag, n)) all_ in
                  let rest = load_tags-AreRead strs more (AreTags-insert tag tags fits h) in
                  let Q = λ (tags' : List ℕ). AreTags tags' × AreRead strs tags' in
                  let R = λ (tags' : List ℕ). contains tag tags' ≡ true in
                  Ensures-map (λ tags'. Q tags' × R tags') P (load_tags strs more)
                    (Ensures-both Q R (load_tags strs more) rest
                      (load_tags-grows strs more tag here_))
                    (λ tags' (q, r). (q.0, ((tag, from, r), q.1)))))))
    ]

-- If the component tags of a command line are taken, they are all of 8 bits, and each of the strings
-- is the number of one of them, read to its end: a negative or a larger number, or one with further
-- characters, ends the program instead of being cut.
pub load_component_tags-AreRead :
    (strs : List (List ℕ))
    → Ensures (λ tags. AreTags tags × AreRead strs tags) (load_component_tags (some strs))
unfolding load_component_tags
load_component_tags-AreRead strs = load_tags-AreRead strs [] tt
