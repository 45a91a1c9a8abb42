-- ===== src/Dp/Info.antt =====
-- driver-dp/dp.c, the line that prtconf shows (`dpdriverinfo`) and the module's pages (`dp_load`).
-- Whether a copyout() succeeds is the caller's argument.
use mathlib.Core.Path.{subst}
use native.Mathlib.Nat.{mul-mod_left}
use atari_sysv_sp.Base.{
  ℕ, ◌+◌, ◌-◌, ◌*◌, ◌/◌, ◌%◌, ◌≤◌, ◌≡◌, ◌≢◌, refl, ◌∙◌, ap, Bool, true, false, Bool-cases, not,
  ◌&&◌, ◌||◌, inl, inr, Option, none, some, List, [], ◌∷◌, ◌++◌, ◌==◌, ltb, leb, if◌then◌else◌,
  length, length-append, replicate, drop, arith,
}
use atari_sysv_sp.Base.Buffer.{slice}
use atari_sysv_sp.Base.Suffix.{length-take_le}
use atari_sysv_sp.Dp.{is_empty}

-- The INQUIRY's words, one space between them; it ends at what does not print.
unfoldable pub squeeze : Bool → List ℕ → List ℕ
squeeze after_space [] = []
squeeze after_space (c ∷ cs) =
    let kept = c ∷ squeeze (c == 32) cs in
    let skipped = squeeze true cs in
    if ltb c 32 || ltb 126 c then [] else if c == 32 && after_space then skipped else kept

unfoldable pub trim : List ℕ → List ℕ
trim [] = []
trim (c ∷ cs) = let rest = trim cs in if c == 32 && is_empty rest then [] else c ∷ rest

-- " at SCSI id ", with the id's digit.
abbrev pub tail : ℕ → List ℕ
tail target = 32 ∷ 97 ∷ 116 ∷ 32 ∷ 83 ∷ 67 ∷ 83 ∷ 73 ∷ 32 ∷ 105 ∷ 100 ∷ 32 ∷ (48 + target) ∷ []

abbrev pub words : List ℕ → List ℕ
words inqdata = trim (squeeze true (slice inqdata 8 28))

-- x_name, with its zeros behind it; the tail comes with its own.
unfoldable pub x_name : ℕ → List ℕ → List ℕ
x_name target inqdata =
    let k = length (words inqdata) in
    let name = if leb (k + 14) 64 then words inqdata ++ tail target else words inqdata in
    name ++ replicate (64 - length name) 0

-- The result, and what was copied out.
pub record Xedt : Type 0 where
  pub errno : ℕ
  pub units : Option ℕ
  pub name : Option (List ℕ)

abbrev failed_with : ℕ → Option ℕ → Xedt
failed_with errno units = record { errno = errno; units = units; name = none }

-- `job` is the adapter's target and INQUIRY, after the search; the two Booleans are the copies'.
unfoldable pub dpdriverinfo : ℕ → ℕ → Option (ℕ × List ℕ) → Bool → Bool → Xedt
dpdriverinfo cmd len job first second =
    let n : ℕ = elim job [ none ↦ 0 | some j ↦ 1 ] in
    let units = if first then some n else none in
    let err = if first then 0 else 14 in
    if not (cmd == 76)
    then failed_with 22 none
    else if len == 4
    then failed_with err units
    else if not (len == 4 + n * 72)
    then failed_with 22 none
    else if not first
    then failed_with 14 none
    else elim job [
      | none ↦ failed_with 0 units
      | some j ↦
          if second
          then record { errno = 0; units = units; name = some (x_name j.0 j.1) }
          else failed_with 14 units
    ]

-- `dp_load`'s addresses, in memory of three pages from `pages` on: dprx, dpdata and dptx.
unfoldable pub buffers : ℕ → ℕ → ℕ × ℕ × ℕ
buffers pagesize pages =
    let a = (pages + (pagesize - 1)) / pagesize * pagesize in (a, a + 3200, a + pagesize)

-- A name of single words: what prints, and no space behind a space.
abbrev pub IsTidy : Bool → List ℕ → Type 0
IsTidy after_space [] = Unit
IsTidy after_space (c ∷ cs) =
    (32 ≤ c) × (c ≤ 126) × (c ≡ 32 → after_space ≡ false) × IsTidy (c == 32) cs

abbrev pub last_or : ℕ → List ℕ → ℕ
last_or d [] = d
last_or d (c ∷ cs) = last_or c cs

IsTidy-if :
    (b s : Bool) (x y : List ℕ)
    → (b ≡ true → IsTidy s x)
    → (b ≡ false → IsTidy s y)
    → IsTidy s (if b then x else y)
IsTidy-if true s x y p q = p refl
IsTidy-if false s x y p q = q refl

length-if :
    (b : Bool) (x y : List ℕ) (n : ℕ)
    → length x ≤ n
    → length y ≤ n
    → length (if b then x else y) ≤ n
length-if true x y n p q = p
length-if false x y n p q = q

squeeze-IsTidy : (s : Bool) (cs : List ℕ) → IsTidy s (squeeze s cs)
unfolding squeeze
squeeze-IsTidy s [] = tt
squeeze-IsTidy s (c ∷ cs) =
    IsTidy-if (ltb c 32 || ltb 126 c) s []
      (if c == 32 && s then squeeze true cs else c ∷ squeeze (c == 32) cs) (λ t. tt)
      (λ f.
        IsTidy-if (c == 32 && s) s (squeeze true cs) (c ∷ squeeze (c == 32) cs)
          (λ t.
            let is : true ≡ s = ground (arith, t) in
            subst (λ b. IsTidy b (squeeze true cs)) is (squeeze-IsTidy true cs))
          (λ g. (
            ground (arith, f),
            ground (arith, f),
            λ e. ground (arith, e, g),
            squeeze-IsTidy (c == 32) cs,
          )))

length-squeeze : (s : Bool) (cs : List ℕ) → length (squeeze s cs) ≤ length cs
unfolding squeeze
length-squeeze s [] = omega arith
length-squeeze s (c ∷ cs) =
    length-if (ltb c 32 || ltb 126 c) []
      (if c == 32 && s then squeeze true cs else c ∷ squeeze (c == 32) cs) _ (omega arith)
      (length-if (c == 32 && s) (squeeze true cs) (c ∷ squeeze (c == 32) cs) _
        (omega (arith, length-squeeze true cs)) (omega (arith, length-squeeze (c == 32) cs)))

trim-IsTidy : (s : Bool) (cs : List ℕ) → IsTidy s cs → IsTidy s (trim cs)
unfolding trim
trim-IsTidy s [] h = tt
trim-IsTidy s (c ∷ cs) h =
    IsTidy-if _ s [] (c ∷ trim cs) (λ t. tt) (λ f. (h.0, h.1, h.2, trim-IsTidy (c == 32) cs h.3))

length-trim : (cs : List ℕ) → length (trim cs) ≤ length cs
unfolding trim
length-trim [] = omega arith
length-trim (c ∷ cs) = length-if _ [] (c ∷ trim cs) _ (omega arith) (omega (arith, length-trim cs))

last_or-any : (c d : ℕ) (xs : List ℕ) → is_empty xs ≡ false → last_or c xs ≡ last_or d xs
last_or-any c d [] h = absurd cc
last_or-any c d (x ∷ xs) h = refl

last_or-trim : (d : ℕ) (cs : List ℕ) → d ≢ 32 → last_or d (trim cs) ≢ 32
unfolding trim
last_or-trim d [] h = h
last_or-trim d (c ∷ cs) h = elim (Bool-cases (c == 32 && is_empty (trim cs))) [
  | inl t ↦ rw t h
  | inr f ↦ rw f (elim (Bool-cases (c == 32)) [
    | inr n ↦ last_or-trim c cs (λ e. ground (arith, e, n))
    | inl e ↦
        let more : is_empty (trim cs) ≡ false = ground (arith, e, f) in
        λ z. last_or-trim d cs h (last_or-any d c (trim cs) more ∙ z)
  ])
]

-- The name that prtconf shows is the vendor, the product and the revision of the INQUIRY, 28 characters at
-- most, all of which print, with no space at either end and no two of them together; the tail with the SCSI
-- id follows, and the 64 bytes of x_name are always enough for both.
pub x_name_lem :
    (target : ℕ) (inqdata : List ℕ)
    → IsTidy true (words inqdata)
      × (last_or 0 (words inqdata) ≢ 32)
      × (length (words inqdata) ≤ 28)
      × (x_name target inqdata
          ≡ words inqdata ++ tail target ++ replicate (51 - length (words inqdata)) 0)
unfolding x_name
x_name_lem target inqdata =
    let raw = slice inqdata 8 28 in
    let few : length (words inqdata) ≤ 28 = omega (
      arith,
      length-trim (squeeze true raw),
      length-squeeze true raw,
      length-take_le 28 (drop 8 inqdata),
    ) in
    let fits : leb (length (words inqdata) + 14) 64 ≡ true = ground (arith, few) in
    let long : length (words inqdata ++ tail target) ≡ length (words inqdata) + 13 =
      length-append (words inqdata) (tail target) in
    (
      trim-IsTidy true (squeeze true raw) (squeeze-IsTidy true raw),
      last_or-trim 0 (squeeze true raw) (omega arith),
      few,
      ap
            (λ b.
              let name = if b then words inqdata ++ tail target else words inqdata in
              name ++ replicate (64 - length name) 0)
            fits
          ∙ ap (λ k. (words inqdata ++ tail target) ++ replicate k 0) (omega (arith, long)),
    )

-- From memory of three pages, a receive's 3100 bytes and the 64 of the bring-up lie in one page and behind
-- each other, the 1600 of a transmit in the next page, and all of them inside the memory, for pages of 4096
-- bytes and more.
pub buffers_lem :
    (pagesize pages : ℕ)
    → 4096 ≤ pagesize
    → let (rx, data', tx) = buffers pagesize pages in
      (pages ≤ rx)
      × (rx % pagesize ≡ 0)
      × (rx + 3100 ≤ data')
      × (data' + 64 ≤ rx + pagesize)
      × (tx ≡ rx + pagesize)
      × (tx + 1600 ≤ pages + 3 * pagesize)
unfolding buffers
buffers_lem pagesize pages h =
    (omega arith, mul-mod_left _ pagesize, omega arith, omega arith, refl, omega arith)
