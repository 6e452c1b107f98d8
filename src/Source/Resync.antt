-- ===== src/Source/Resync.antt =====
-- The search for the next packet by `FileSource` of src/packet_source.hh in the bytes it holds.
use mirakc_arib.Prelude.{
  ℕ, sym, ap, ◌∙◌, ==_iff, zero, suc, ◌+◌, ◌*◌, ◌≤◌, ◌<◌, ◌≡◌, refl, Bool, true, false, some, List,
  [], ◌∷◌, ◌++◌, length, get_elem?, get_or, take, drop, ◌==◌, if◌then◌else◌, Returns, Returns-bind,
  Returns-map, Bool-cases, inl, inr, arith,
}
use mirakc_arib.Source.{pkt_size, sync_byte, buffer_size, FileSource, validate_resync, resync_loop}

-- What the source relies on of `File::Read`, where `rest` is the bytes that are still to be read:
-- it hands over the first of them, no more than it was asked for.
pub record ReadLaw {F : Type 0} (read : F → ℕ → F × List ℕ) (rest : F → List ℕ) : Type 0 where
  pub read_rest : (f : F) (n : ℕ) → rest f ≡ (read f n).1 ++ rest (read f n).0
  pub read_le : (f : F) (n : ℕ) → length (read f n).1 ≤ n

-- The source may be asked for a packet.
pub record IsValid {F : Type 0} (s : FileSource F) : Type 0 where
  pub open_ : s.eof ≡ false
  pub in_buffer : s.pos ≤ length s.buf
  pub fits : length s.buf ≤ buffer_size

pub get_elem?-eq-get_or :
    (xs : List ℕ) (i : ℕ) → i < length xs → get_elem? xs i ≡ some (get_or xs i 0)
get_elem?-eq-get_or [] i h = elim h [ ]
get_elem?-eq-get_or (x ∷ xs) zero h = refl
get_elem?-eq-get_or (x ∷ xs) (suc i) h = get_elem?-eq-get_or xs i (omega arith)

pub get_elem?-take-drop :
    (xs : List ℕ) (i : ℕ) → get_elem? (take pkt_size (drop i xs)) 0 ≡ get_elem? xs i
get_elem?-take-drop [] zero = refl
get_elem?-take-drop [] (suc i) = refl
get_elem?-take-drop (x ∷ xs) zero = refl
get_elem?-take-drop (x ∷ xs) (suc i) = get_elem?-take-drop xs i

-- Four sync bytes, 188 bytes apart.
abbrev pub InSync : List ℕ → ℕ → Type 0
InSync buf i =
    (get_elem? buf i ≡ some sync_byte)
    × (get_elem? buf (i + 1 * pkt_size) ≡ some sync_byte)
    × (get_elem? buf (i + 2 * pkt_size) ≡ some sync_byte)
    × (get_elem? buf (i + 3 * pkt_size) ≡ some sync_byte)

-- What the test at a position says.
abbrev Tells : List ℕ → ℕ → Bool → Type 0
Tells buf i valid = (valid ≡ true → InSync buf i) × (valid ≡ false → ¬ InSync buf i)

pub some_injective : {a b : ℕ} → some a ≡ some b → a ≡ b
some_injective e = cc

validate_resync_lem :
    (buf : List ℕ) (i : ℕ)
    → i + 3 * pkt_size < length buf
    → get_elem? buf i ≡ some sync_byte
    → Returns (Tells buf i) (validate_resync buf i)
unfolding validate_resync
validate_resync_lem buf i h here =
    let at1 = get_elem?-eq-get_or buf (i + 1 * pkt_size) (omega arith) in
    let at2 = get_elem?-eq-get_or buf (i + 2 * pkt_size) (omega arith) in
    let at3 = get_elem?-eq-get_or buf (i + 3 * pkt_size) (omega arith) in
    rw (at1, at2, at3)
      (
        λ valid. ground arith,
        λ invalid (_, s1, s2, s3).
            let e1 = some_injective (sym at1 ∙ s1) in
            let e2 = some_injective (sym at2 ∙ s2) in
            let e3 = some_injective (sym at3 ∙ s3) in ground arith,
      )

-- The search of `Resync` over the `left` positions from `i` on.
abbrev pub Finds : ℕ → List ℕ → ℕ → ℕ × Bool → Type 0
Finds left buf i r =
    (i ≤ r.0)
    × (r.0 ≤ i + left)
    × (r.1 ≡ true → (r.0 < i + left) × InSync buf r.0)
    × (r.1 ≡ false → r.0 ≡ i + left)
    × ((k : ℕ) → i ≤ k → k < r.0 → ¬ InSync buf k)

Finds-next :
    (left : ℕ) (buf : List ℕ) (i : ℕ)
    → ¬ InSync buf i
    → (r : ℕ × Bool) → Finds left buf (i + 1) r
    → Finds (suc left) buf i r
Finds-next left buf i here r f = (
  omega arith,
  omega arith,
  λ ok. (omega (arith, f.2 ok), (f.2 ok).1),
  λ lost. omega (arith, f.3 lost),
  λ k low high. elim (Bool-cases (k == i)) [
    | inl same ↦ rw ((==_iff k i).0 same) here
    | inr other ↦ f.4 k (ground arith) high
  ],
)

pub resync_loop_lem :
    (left : ℕ) (buf : List ℕ) (i : ℕ)
    → i + left + 3 * pkt_size ≤ length buf
    → Returns (Finds left buf i) (resync_loop left buf i)
unfolding resync_loop
resync_loop_lem zero buf i h =
    (omega arith, omega arith, λ e. cc, λ e. omega arith, λ k low high. omega arith)
resync_loop_lem (suc left) buf i h =
    let here = get_elem?-eq-get_or buf i (omega arith) in
    let test = if get_or buf i 0 == sync_byte then validate_resync buf i else some false in
    let tested : Returns (Tells buf i) test = elim (Bool-cases (get_or buf i 0 == sync_byte)) [
      | inl hit ↦ rw hit (
          validate_resync_lem buf i (omega arith)
            (here ∙ ap some ((==_iff (get_or buf i 0) sync_byte).0 hit)))
      | inr miss ↦
          rw miss
            (λ e. cc, λ _ (s0, _, _, _). let e0 = some_injective (sym here ∙ s0) in ground arith)
    ] in
    rw here (
      Returns-bind (Tells buf i) (Finds (suc left) buf i) test _ tested λ valid tells.
        elim (Bool-cases valid) [
          | inl e ↦ rw e (
            omega arith,
            omega arith,
            λ _. (omega arith, tells.0 e),
            λ lost. cc,
            λ k low high. absurd (omega arith),
          )
          | inr e ↦ rw e (
              Returns-map (Finds left buf (i + 1)) (Finds (suc left) buf i) _
                (resync_loop_lem left buf (i + 1) (omega arith))
                (Finds-next left buf i (tells.1 e)))
        ])

pub nil_of_length : {xs : List ℕ} → (length xs == 0) ≡ true → xs ≡ []
nil_of_length {xs = []} h = refl
nil_of_length {xs = x ∷ xs} h = absurd (ground arith)
