-- ===== src/Internal/Kept.antt =====
-- What internalizing leaves as it was.
use desmata.Prelude.{
  Bool, true, false, Option, none, some, [], ◌∷◌, ◌++◌, ◌≡◌, refl, sym, ap, ◌∙◌, Bool-cases, inl,
  inr,
}
use desmata.Prelude.Results.{Error, Result, ok, err, ok_eq, raised_returns}
use desmata.Session.{changed, left}
use desmata.Session.Traces.{left-changed}
use desmata.Disk.{FilePath, Entry, folder, file, Disk, there, below, name_of, mkdir, copytree}
use desmata.Disk.Paths.{put_apart}
use desmata.Disk.Elsewhere.{below_trans, below_either, mkdir-else, copy2-else}
use desmata.Internal.{Stops, walked, link_tree, link_entry, create_hard_links, copy_entry, fill}

-- Neither path stands at or below the other.
pub record IsApart (p q : FilePath) : Type 0 where
  pub not_above : below p q ≡ false
  pub not_below : below q p ≡ false

-- What stands at or below a folder is the same on both disks.
abbrev pub IsKept : FilePath → Disk → Disk → Type 0
IsKept base d e = (q : FilePath) → below base q ≡ true → e q ≡ d q

pub IsKept-trans :
    (base : FilePath) (c d e : Disk) → IsKept base c d → IsKept base d e → IsKept base c e
IsKept-trans base c d e h k q b = k q b ∙ h q b

-- What is below one of two such paths is not below the other, nor above it.
pub elsewhere : (p q r : FilePath) → IsApart p q → below p r ≡ true → below q r ≡ false
elsewhere p q r a b = elim (Bool-cases (below q r)) [
  | inr n ↦ n
  | inl h ↦ elim (below_either p q r b h) [
    | inl x ↦ cc (x, a.not_above)
    | inr x ↦ cc (x, a.not_below)
  ]
]

pub off_way : (p q r : FilePath) → IsApart p q → below p r ≡ true → below r q ≡ false
off_way p q r a b = elim (Bool-cases (below r q)) [
  | inr n ↦ n
  | inl h ↦ cc (below_trans p r q b h, a.not_above)
]

-- A walk that stops has touched nothing but what stands at or below its path.
abbrev pub StayBelow : Stops → Type 0
StayBelow stops =
    (source path q : FilePath) (d e : Disk) (x : Error)
    → stops source path d ≡ some (x, e)
    → below path q ≡ false
    → e q ≡ d q

pub walked-left :
    (P : Disk → Type 0) (o : Option (Error × Disk)) (whole : Result Disk) (d : Disk)
    → P d
    → ((x : Error) (e : Disk) → o ≡ some (x, e) → P e)
    → ((e : Disk) → whole ≡ ok e → P e)
    → P (left (walked o whole d))
walked-left P (some (x, e)) whole d h k l = k x e refl
walked-left P none (ok e) d h k l = l e refl
walked-left P none (err x) d h k l = h

-- A walk that returns has done the whole.
pub walked-ok :
    (o : Option (Error × Disk)) (whole : Result Disk) (d e : Disk)
    → walked o whole d ≡ (ok tt, e)
    → whole ≡ ok e
walked-ok (some (x, f)) whole d e h = absurd (raised_returns (ap (λ y. y.0) h))
walked-ok none (ok f) d e h = ap ok (ap (λ y. y.1) h)
walked-ok none (err x) d e h = absurd (raised_returns (ap (λ y. y.0) h))

pub changed-ok :
    (r : Result Disk) (next : Disk → Result (Unit {0}) × Disk) (d e : Disk)
    → changed r next d ≡ (ok tt, e)
    → (m : Disk) × (r ≡ ok m) × (next m ≡ (ok tt, e))
changed-ok (ok m) next d e h = (m, refl, h)
changed-ok (err x) next d e h = absurd (raised_returns (ap (λ y. y.0) h))

module _ (base path : FilePath) (a : IsApart base path) where
  pub mkdir-IsKept : (d e : Disk) → mkdir path d ≡ ok e → IsKept base d e
  mkdir-IsKept d e made q b = mkdir-else path q d e made (off_way base path q a b)

  link_entry-IsKept :
      (o : Option Entry) (source : FilePath) (d e : Disk)
      → link_entry o source path d ≡ ok e
      → IsKept base d e
  unfolding link_entry
  link_entry-IsKept none source d e h q b = absurd (raised_returns h)
  link_entry-IsKept (some folder) source d e h q b = elim (Bool-cases (below source path)) [
    | inl x ↦ absurd (raised_returns (rw x at h))
    | inr x ↦
        ap (λ f. f q) (sym (ok_eq (rw x at h)))
        ∙ unfold link_tree in rw (elsewhere base path q a b) refl
  ]
  link_entry-IsKept (some (file c)) source d e h q b =
      elim (Bool-cases (there (d (path ++ name_of source ∷ [])))) [
        | inl x ↦ ap (λ f. f q) (sym (ok_eq (rw x at h)))
        | inr x ↦
            ap (λ f. f q) (sym (ok_eq (rw x at h)))
            ∙ put_apart path (name_of source ∷ []) q (file c) d (elsewhere base path q a b)
      ]

  copy_entry-IsKept :
      (o : Option Entry) (source : FilePath) (d e : Disk)
      → copy_entry o source path d ≡ ok e
      → IsKept base d e
  unfolding copy_entry
  copy_entry-IsKept none source d e h q b = absurd (raised_returns h)
  copy_entry-IsKept (some folder) source d e h q b = elim (Bool-cases (below source path)) [
    | inl x ↦ absurd (raised_returns (rw x at h))
    | inr x ↦
        ap (λ f. f q) (sym (ok_eq (rw x at h)))
        ∙ unfold copytree in rw (elsewhere base path q a b) refl
  ]
  copy_entry-IsKept (some (file c)) source d e h q b =
      copy2-else source path (name_of source ∷ []) q d e h (elsewhere base path q a b)

  module _ (stops : Stops) (stay : StayBelow stops) where
    walked-IsKept :
        (source : FilePath) (whole : Result Disk) (d : Disk)
        → ((e : Disk) → whole ≡ ok e → IsKept base d e)
        → IsKept base d (left (walked (stops source path d) whole d))
    walked-IsKept source whole d h =
        walked-left (IsKept base d) (stops source path d) whole d (λ q b. refl)
          (λ x e halted q b. stay source path q d e x halted (elsewhere base path q a b)) h

    pub create_hard_links-IsKept :
        (source : FilePath) (d : Disk)
        → IsKept base d (left (create_hard_links stops source path d))
    unfolding create_hard_links
    create_hard_links-IsKept source d =
        left-changed (IsKept base d) (mkdir path d) _ d (λ q b. refl)
          (λ m made.
            IsKept-trans base d m _ (mkdir-IsKept d m made)
              (walked-IsKept source _ m (link_entry-IsKept (m source) source m)))

    pub fill-IsKept :
        (safe : Bool) (target : FilePath) (d : Disk)
        → IsKept base d (left (fill stops safe target path d))
    unfolding fill
    fill-IsKept safe target d = elim (Bool-cases (there (d target))) [
      | inr x ↦ rw x (λ q b. refl)
      | inl x ↦ elim (Bool-cases safe) [
        | inl s ↦ rw (x, s) (create_hard_links-IsKept target d)
        | inr s ↦ rw (x, s) (walked-IsKept target _ d (copy_entry-IsKept (d target) target d))
      ]
    ]
