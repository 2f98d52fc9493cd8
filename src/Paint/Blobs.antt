-- ===== src/Paint/Blobs.antt =====
-- What src/desmata/paint.py takes from a node and from the outbox: `fetch_data_ref_bytes`, `ship_blobs`.
use desmata.Prelude.{
  ℕ, true, not, Option, none, some, List, [], ◌∷◌, ◌≡◌, refl, sym, ap, ◌∙◌, Bool-cases, inl, inr,
  ◌↔◌, false, ◌⊎◌, if◌then◌else◌,
}
use desmata.Prelude.Results.{
  Result, ok, err, publish_mismatch, ◌>>=◌, >>=-eq-ok, ok_eq, raised_returns, some_eq,
  nothing_there,
}
use desmata.Prelude.Texts.{Text, eq_text, eq_text→eq, eq_text_refl}
use desmata.Archive.Cell.{le_text}
use desmata.Provenance.{Hashing}
use desmata.Provenance.Ledger.{Dir, file_at, insert_file, sort_files}
use desmata.Paint.Node.{
  Node, Ref, size_agrees, ship, ship_blobs, checked, post_fetch, fetch_remote, local_or,
  local_bytes, is_name, fetch_data_ref_bytes,
}
use desmata.Paint.Outbox.{IsAddressed}

module _ (H : Hashing) where
  file_at-IsAddressed :
      (k : Text) (d : Dir (List ℕ)) (bytes : List ℕ)
      → IsAddressed H d
      → file_at k d ≡ some bytes
      → H.sha256 bytes ≡ k
  unfolding file_at
  file_at-IsAddressed k [] bytes h e = absurd (nothing_there e)
  file_at-IsAddressed k ((n, w) ∷ d) bytes (q, h) e = elim (Bool-cases (eq_text n k)) [
    | inl p ↦ rw (← some_eq (rw p at e)) (sym q ∙ eq_text→eq n k p)
    | inr p ↦ file_at-IsAddressed k d bytes h (rw p at e)
  ]

  checked_sound :
      (k : Text) (o : Option (List ℕ)) (bytes : List ℕ)
      → checked H k o ≡ ok (some bytes)
      → H.sha256 bytes ≡ k
  unfolding checked
  checked_sound k none bytes e = absurd (nothing_there (ok_eq e))
  checked_sound k (some w) bytes e = elim (Bool-cases (eq_text (H.sha256 w) k)) [
    | inl p ↦ rw (← some_eq (ok_eq (rw p at e))) (eq_text→eq (H.sha256 w) k p)
    | inr p ↦ absurd (raised_returns (rw p at e))
  ]

  fetch_remote_sound :
      (peer : Option Node) (k : Text) (bytes : List ℕ)
      → fetch_remote H peer k ≡ ok (some bytes)
      → H.sha256 bytes ≡ k
  unfolding fetch_remote post_fetch
  fetch_remote_sound none k bytes e = absurd (nothing_there (ok_eq e))
  fetch_remote_sound (some node) k bytes e =
      let (o, _, q) = >>=-eq-ok (node.fetch k) (checked H k) e in checked_sound k o bytes q

  local_or_sound :
      (peer : Option Node) (k : Text) (o : Option (List ℕ)) (bytes : List ℕ)
      → local_or H peer k o ≡ ok (some bytes)
      → (H.sha256 bytes ≡ k) ⊎ (o ≡ some bytes)
  local_or_sound peer k none bytes e = inl (fetch_remote_sound peer k bytes e)
  local_or_sound peer k (some w) bytes e = inr (ok_eq e)

  local_bytes_sound :
      (elsewhere : Text → Result (Option (List ℕ))) (box : Dir (List ℕ)) (k : Text) (bytes : List ℕ)
      → IsAddressed H box
      → local_bytes H elsewhere box k ≡ ok (some bytes)
      → (H.sha256 bytes ≡ k) ⊎ ((is_name k ≡ false) × (elsewhere k ≡ ok (some bytes)))
  unfolding local_bytes
  local_bytes_sound elsewhere box k bytes h e = elim (Bool-cases (is_name k)) [
    | inl p ↦ inl (file_at-IsAddressed k box bytes h (ok_eq (rw p at e)))
    | inr p ↦ inr (p, rw p at e)
  ]

  -- Where each blob of the outbox stands under its hash, the bytes that are fetched for a reference
  -- have the hash that it gives, whatever the node answers, or the given hash is no plain name, and
  -- they are those of the file outside the outbox to which it leads.
  pub fetch_data_ref_bytes_sound :
      (elsewhere : Text → Result (Option (List ℕ))) (peer : Option Node) (box : Dir (List ℕ))
      (digest : Text) (bytes : List ℕ)
      → IsAddressed H box
      → fetch_data_ref_bytes H elsewhere peer box digest ≡ ok (some bytes)
      → (H.sha256 bytes ≡ digest)
        ⊎ ((is_name digest ≡ false) × (elsewhere digest ≡ ok (some bytes)))
  unfolding fetch_data_ref_bytes
  fetch_data_ref_bytes_sound elsewhere peer box digest bytes h e =
      let (o, l, q) = >>=-eq-ok (local_bytes H elsewhere box digest) (local_or H peer digest) e in
      elim (local_or_sound peer digest o bytes q) [
        | inl p ↦ inl p
        | inr p ↦ local_bytes_sound elsewhere box digest bytes h (l ∙ ap ok p)
      ]

-- The node's reference for a blob that both checks pass.
abbrev pub Accepts : Node → Text × List ℕ → Type 0
Accepts node (name, bytes) =
    (ref : Ref) × (node.put_data bytes ≡ ok ref)
    × (ref.hash ≡ name)
    × (size_agrees ref.size bytes ≡ true)

abbrev pub AllAccepted : Node → Dir (List ℕ) → Type 0
AllAccepted node [] = Unit
AllAccepted node (x ∷ d) = Accepts node x × AllAccepted node d

-- The names of the files.
abbrev pub names : Dir (List ℕ) → List Text
names [] = []
names ((n, w) ∷ d) = n ∷ names d

module _ (node : Node) where
  AllAccepted-insert_file :
      (n : Text) (w : List ℕ) (d : Dir (List ℕ))
      → AllAccepted node (insert_file n w d) ↔ AllAccepted node ((n, w) ∷ d)
  unfolding insert_file
  AllAccepted-insert_file n w [] = (λ h. h, λ h. h)
  AllAccepted-insert_file n w ((m, v) ∷ d) = elim (Bool-cases (le_text n m)) [
    | inl e ↦ rw e (λ h. h, λ h. h)
    | inr e ↦
        let (to, from) = AllAccepted-insert_file n w d in
        rw e (λ (y, h). let (x, t) = to h in (x, (y, t)), λ (x, (y, t)). (y, from (x, t)))
  ]

  AllAccepted-sort_files : (d : Dir (List ℕ)) → AllAccepted node (sort_files d) ↔ AllAccepted node d
  unfolding sort_files
  AllAccepted-sort_files [] = (λ h. h, λ h. h)
  AllAccepted-sort_files ((n, w) ∷ d) =
      let (to, from) = AllAccepted-insert_file n w (sort_files d) in
      let (up, down) = AllAccepted-sort_files d in
      (λ h. let (x, t) = to h in (x, up t), λ (x, t). from (x, down t))

  -- The answer for one blob, and what follows it.
  answered :
      (n : Text) (w : List ℕ) (rest : Result (List Text)) (ref : Ref) (hs : List Text)
      → (if not (eq_text ref.hash n)
          then err publish_mismatch
          else if not (size_agrees ref.size w)
          then err publish_mismatch
          else (rest >>= λ shipped. ok (ref.hash ∷ shipped)))
        ≡ ok hs
      → (ref.hash ≡ n)
        × (size_agrees ref.size w ≡ true)
        × ((shipped : List Text) × (rest ≡ ok shipped) × (n ∷ shipped ≡ hs))
  answered n w rest ref hs h = elim (Bool-cases (eq_text ref.hash n)) [
    | inl e ↦ elim (Bool-cases (size_agrees ref.size w)) [
      | inl q ↦
          let same = eq_text→eq ref.hash n e in
          let (shipped, r, t) =
            >>=-eq-ok rest (λ shipped. ok (ref.hash ∷ shipped)) (rw (e, q) at h) in
          (same, q, (shipped, r, ap (λ n. n ∷ shipped) (sym same) ∙ ok_eq t))
      | inr q ↦ absurd (raised_returns (rw (e, q) at h))
    ]
    | inr e ↦ absurd (raised_returns (rw e at h))
  ]

  ship-ok : (d : Dir (List ℕ)) → AllAccepted node d → ship node d ≡ ok (names d)
  unfolding ship
  ship-ok [] h = refl
  ship-ok ((n, w) ∷ d) ((ref, p, e, q), h) = rw (p, q, e, eq_text_refl n, ship-ok d h) refl

  ship-accepted :
      (d : Dir (List ℕ)) (hs : List Text)
      → ship node d ≡ ok hs
      → AllAccepted node d × (hs ≡ names d)
  unfolding ship
  ship-accepted [] hs h = (tt, sym (ok_eq h))
  ship-accepted ((n, w) ∷ d) hs h =
      let (ref, p, q) = >>=-eq-ok (node.put_data w) _ h in
      let (e, fits, (shipped, r, t)) = answered n w (ship node d) ref hs q in
      let (all, same) = ship-accepted d shipped r in
      (((ref, p, e, fits), all), sym t ∙ ap (λ s. n ∷ s) same)

  -- Shipping the outbox returns some hashes if and only if the node accepts each blob of it, which is
  -- to answer with the blob's name and with its size or none, and these hashes are the names, sorted.
  ship_blobs-ok_iff :
      (box : Dir (List ℕ)) (hs : List Text)
      → (ship_blobs node box ≡ ok hs) ↔ (AllAccepted node box × (hs ≡ names (sort_files box)))
  unfolding ship_blobs
  ship_blobs-ok_iff box hs =
      let (to, from) = AllAccepted-sort_files box in
      (
        λ h. let (all, e) = ship-accepted (sort_files box) hs h in (to all, e),
        λ (all, e). rw e (ship-ok (sort_files box) (from all)),
      )
