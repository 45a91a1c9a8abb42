-- ===== src/Ufs/Path.antt =====
-- mint/ufsxfs/ufs.c, the path of a directory (`ufs_getname`), by its parents. The loop has fuel, and a
-- result for its end.
use mathlib.Core.Path.{subst}
use atari_sysv_sp.Base.{
  ℕ, zero, suc, ◌+◌, ◌-◌, ◌≤◌, ◌<◌, ◌≡◌, refl, sym, ◌∙◌, ap, Bool-cases, ◌⊎◌, inl, inr, Option,
  none, some, List, [], ◌∷◌, ◌++◌, append-nil, append_assoc, ◌==◌, ltb, if◌then◌else◌, if_true,
  if_false, length, length-append, arith,
}
use atari_sysv_sp.Ufs.Disk.{Slice, Bio, Error, Result, ok, err, ◌>>=◌, enoent, ebadarg}
use atari_sysv_sp.Ufs.Blocks.{iget}
use atari_sysv_sp.Ufs.Dirs.{dirlookup, dirname}
use atari_sysv_sp.Ufs.Calls.{Drives, Cookie, slice_of, maxnamlen, c_string}

unfoldable pub strrev : List ℕ → List ℕ
strrev [] = []
strrev (c ∷ cs) = strrev cs ++ c ∷ []

abbrev slash : ℕ
slash = 47

abbrev dots : List ℕ
dots = 46 ∷ 46 ∷ []

-- The directory above, by "..", and the name that it has for this one.
unfoldable pub parent_of : Bio → Slice → ℕ → Result (ℕ × List ℕ)
parent_of io s ino = (do
  ip ← iget io s ino
  let parent = dirlookup io s ip dots in
      if parent == 0 then err enoent else (do
        up ← iget io s parent
        name ← dirname io s up ino (maxnamlen + 1)
        ok (parent, c_string name)))

-- The loop; `pathname` is reversed until it ends.
unfoldable pub climb : ℕ → Bio → Slice → ℕ → ℕ → ℕ → List ℕ → Option (Result (List ℕ))
climb zero io s root size ino pathname = none
climb (suc fuel) io s root size ino pathname =
    if ino == root then some (ok (strrev pathname)) else elim (parent_of io s ino) [
      | err e ↦ some (err e)
      | ok p ↦
          let rest = climb fuel io s root size p.0 (pathname ++ strrev p.1 ++ slash ∷ []) in
          if ltb size (length pathname + length p.1 + 1) then some (err ebadarg) else rest
    ]

-- As many rounds as the buffer has bytes.
unfoldable pub getname : Bio → Drives → Cookie → Cookie → ℕ → Option (Result (List ℕ))
getname io ufs root dir size = elim (slice_of ufs dir.dev) [
  | err e ↦ some (err e)
  | ok s ↦ climb (suc size) io s root.index (size - 1) dir.index []
]

-- A path from the root down to a directory, each name the one that a directory has for the next.
pub data Leads (io : Bio) (s : Slice) (root : ℕ) : ℕ → List ℕ → Type 0 where
  at_root : Leads io s root root []
  below :
      (ino parent : ℕ) (name path : List ℕ)
      → parent_of io s ino ≡ ok (parent, name)
      → Leads io s root parent path
      → Leads io s root ino (path ++ slash ∷ name)

length-strrev : (cs : List ℕ) → length (strrev cs) ≡ length cs
unfolding strrev
length-strrev [] = refl
length-strrev (c ∷ cs) = omega (arith, length-append (strrev cs) (c ∷ []), length-strrev cs)

strrev-append : (xs ys : List ℕ) → strrev (xs ++ ys) ≡ strrev ys ++ strrev xs
unfolding strrev
strrev-append [] ys = sym (append-nil (strrev ys))
strrev-append (x ∷ xs) ys =
    ap (λ l. l ++ x ∷ []) (strrev-append xs ys) ∙ append_assoc (strrev ys) (strrev xs) (x ∷ [])

strrev-strrev : (cs : List ℕ) → strrev (strrev cs) ≡ cs
unfolding strrev
strrev-strrev [] = refl
strrev-strrev (c ∷ cs) = strrev-append (strrev cs) (c ∷ []) ∙ ap (◌∷◌ c) (strrev-strrev cs)

-- What a name adds, read forwards.
grown :
    (pathname name : List ℕ)
    → strrev (pathname ++ strrev name ++ slash ∷ []) ≡ (slash ∷ name) ++ strrev pathname
unfolding strrev
grown pathname name =
    strrev-append (pathname ++ strrev name) (slash ∷ [])
    ∙ ap (λ l. slash ∷ l)
        (strrev-append pathname (strrev name) ∙ ap (λ l. l ++ strrev pathname) (strrev-strrev name))

-- How the loop ends, from a directory with what is behind it: with a path to it, in front of that, of at
-- most so many bytes, or with an error.
pub data Named (io : Bio) (s : Slice) (root ino size : ℕ) (behind : List ℕ)
    : Result (List ℕ) → Type 0 where
  named :
      (path : List ℕ)
      → Leads io s root ino path
      → length path + length behind ≤ size
      → Named io s root ino size behind (ok (path ++ behind))
  unnamed : (e : Error) → Named io s root ino size behind (err e)

Result-cases : {A : Type 0} (r : Result A) → ((a : A) × (r ≡ ok a)) ⊎ ((e : Error) × (r ≡ err e))
Result-cases (ok a) = inl (a, refl)
Result-cases (err e) = inr (e, refl)

-- A directory below.
down :
    (io : Bio) (s : Slice) (root ino size : ℕ) (p : ℕ × List ℕ) (behind : List ℕ)
    {r : Result (List ℕ)}
    → parent_of io s ino ≡ ok p
    → Named io s root p.0 size ((slash ∷ p.1) ++ behind) r
    → Named io s root ino size behind r
down io s root ino size p behind e (named path leads fits) =
    subst (Named io s root ino size behind) (ap ok (append_assoc path (slash ∷ p.1) behind)) (
      named (path ++ slash ∷ p.1) (below ino p.0 p.1 path e leads)
        (omega (arith, fits, length-append path (slash ∷ p.1), length-append p.1 behind)))
down io s root ino size p behind e (unnamed x) = unnamed x

abbrev Ends : Bio → Slice → ℕ → ℕ → ℕ → List ℕ → Option (Result (List ℕ)) → Type 0
Ends io s root ino size behind o =
    (r : Result (List ℕ)) × (o ≡ some r) × Named io s root ino size behind r

climb_lem :
    (fuel : ℕ) (io : Bio) (s : Slice) (root size ino : ℕ) (pathname : List ℕ)
    → size < fuel + length pathname
    → length pathname ≤ size
    → Ends io s root ino size (strrev pathname) (climb fuel io s root size ino pathname)
unfolding climb
climb_lem zero io s root size ino pathname f l = absurd (omega arith)
climb_lem (suc fuel) io s root size ino pathname f l =
    let behind = strrev pathname in
    elim (Bool-cases (ino == root)) [
      | inl t ↦
          let same : root ≡ ino = ground (arith, t) in
          (
            ok behind,
            if_true _ _ t,
            named [] (subst (λ x. Leads io s root x []) same at_root)
                (omega (arith, length-strrev pathname, l)),
          )
      | inr n ↦ elim (Result-cases (parent_of io s ino)) [
        | inr (e, h) ↦ (err e, if_false _ _ n ∙ ap up h, unnamed e)
        | inl (p, h) ↦
            let longer = pathname ++ strrev p.1 ++ slash ∷ [] in
            let count : length longer ≡ length pathname + length p.1 + 1 =
              length-append (pathname ++ strrev p.1) (slash ∷ [])
              ∙ ap (λ k. k + 1)
                  (length-append pathname (strrev p.1)
                    ∙ ap (λ k. length pathname + k) (length-strrev p.1)) in
            elim (Bool-cases (ltb size (length pathname + length p.1 + 1))) [
              | inl t ↦ (err ebadarg, if_false _ _ n ∙ ap up h ∙ if_true _ _ t, unnamed ebadarg)
              | inr g ↦
                  let fits : length longer ≤ size = ground (arith, g, count) in
                  let (r, e, w) =
                    climb_lem fuel io s root size p.0 longer (omega (arith, f, count)) fits in
                  (
                    r,
                    if_false _ _ n ∙ ap up h ∙ if_false _ _ g ∙ e,
                    down io s root ino size p behind h
                        (subst (λ b. Named io s root p.0 size b r) (grown pathname p.1) w),
                  )
            ]
      ]
    ]
  where
    up : Result (ℕ × List ℕ) → Option (Result (List ℕ))
    up (err e) = some (err e)
    up (ok p) =
        if ltb size (length pathname + length p.1 + 1)
        then some (err ebadarg)
        else climb fuel io s root size p.0 (pathname ++ strrev p.1 ++ slash ∷ [])

-- ufs_getname always returns, whatever the directories hold, within as many rounds as its buffer has bytes:
-- with an error, or with a path that leads from the root to the directory, each of its names the one that
-- the directory above, found by "..", has for it; the path with its end fits the buffer.
pub getname_lem :
    (io : Bio) (ufs : Drives) (root dir : Cookie) (size : ℕ) {s : Slice}
    → slice_of ufs dir.dev ≡ ok s
    → (r : Result (List ℕ)) × (getname io ufs root dir size ≡ some r)
      × Named io s root.index dir.index (size - 1) [] r
unfolding getname strrev
getname_lem io ufs root dir size {s} e =
    let (r, h, w) =
      climb_lem (suc size) io s root.index (size - 1) dir.index [] (omega arith) (omega arith) in
    (r, ap start e ∙ h, w)
  where
    start : Result Slice → Option (Result (List ℕ))
    start (err x) = some (err x)
    start (ok t) = climb (suc size) io t root.index (size - 1) dir.index []
