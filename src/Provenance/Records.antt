-- ===== src/Provenance/Records.antt =====
-- What the store of build records keeps.
use desmata.Provenance.StorePath.{IsStorePath, same_test}
use desmata.Prelude.{
  Option, none, some, List, [], ◌∷◌, ◌≡◌, refl, ap, sym, ◌∙◌, if◌then◌else◌, arith, Bool-cases, inl,
  inr,
}
use desmata.Prelude.Results.{Result, ok, err}
use desmata.Prelude.Texts.{Text, eq_text, eq_text→eq, eq_text_refl}
use desmata.Wit.Values.{Members}
use desmata.Provenance.Wire.{texts_in-texts}
use desmata.Provenance.Ledger.{Dir, write, file_at}
use desmata.Provenance.Kept.{
  copies, IsDistinct, file_at-write, write-IsDistinct, rest-IsDistinct, first_only,
}
use desmata.Provenance.Builds.{
  NarInfo, text_or_null, as_deriver, nar_to_dict, nar_from_dict, record_name, save_records, collect,
  load_records,
}

as_deriver-text : (o : Option Text) → as_deriver (text_or_null o) ≡ ok o
as_deriver-text none = refl
as_deriver-text (some t) = refl

-- A build record's document reads back as the record.
pub nar_from_dict-nar_to_dict : (n : NarInfo) → nar_from_dict (nar_to_dict n) ≡ ok n
unfolding nar_from_dict nar_to_dict
nar_from_dict-nar_to_dict n = rw (as_deriver-text n.deriver, texts_in-texts n.references) refl

-- Each file holds a record of a path of the store, under this path's name.
abbrev pub IsRecords : Dir Members → Type 0
IsRecords [] = Unit
IsRecords ((name, doc) ∷ d) =
    ((n : NarInfo) × IsStorePath n.path × (name ≡ record_name n.path) × (doc ≡ nar_to_dict n))
    × IsRecords d

abbrev pub AllStore : List NarInfo → Type 0
AllStore [] = Unit
AllStore (n ∷ ns) = IsStorePath n.path × AllStore ns

write-IsRecords :
    (n : NarInfo) (d : Dir Members)
    → IsStorePath n.path
    → IsRecords d
    → IsRecords (write (record_name n.path) (nar_to_dict n) d)
unfolding write
write-IsRecords n [] s h = ((n, s, refl, refl), tt)
write-IsRecords n ((m, doc) ∷ d) s (x, h) = elim (Bool-cases (eq_text m (record_name n.path))) [
  | inl e ↦ rw e ((n, s, eq_text→eq m (record_name n.path) e, refl), h)
  | inr e ↦ rw e (x, write-IsRecords n d s h)
]

nothing_at : (k : Text) (d : Dir Members) → copies k d ≡ 0 → file_at k d ≡ none
unfolding copies file_at
nothing_at k [] h = refl
nothing_at k ((m, doc) ∷ d) h = ground (arith, nothing_at k d)

abbrev of_result : Result NarInfo → Option NarInfo
of_result (ok n) = some n
of_result (err e) = none

-- The record of a document, or what was there before.
abbrev as_record : Option Members → Option NarInfo → Option NarInfo
as_record none before = before
as_record (some doc) before = of_result (nar_from_dict doc)

as_record-document :
    (n : NarInfo) (before : Option NarInfo) → as_record (some (nar_to_dict n)) before ≡ some n
as_record-document n before = ap of_result (nar_from_dict-nar_to_dict n)

-- A file in front of the others, where no other has its name.
looked :
    (name : Text) (doc : Members) (d : Dir Members) (n : NarInfo) (p : Text) (out : Dir NarInfo)
    → IsStorePath n.path
    → IsStorePath p
    → name ≡ record_name n.path
    → doc ≡ nar_to_dict n
    → file_at name d ≡ none
    → as_record (file_at (record_name p) d) (if eq_text n.path p then some n else file_at p out)
      ≡ as_record
          (if eq_text name (record_name p) then some doc else file_at (record_name p) d)
          (file_at p out)
looked name doc d n p out s sp en ed gone = elim (Bool-cases (eq_text n.path p)) [
  | inl e ↦
      let same : name ≡ record_name p = en ∙ ap record_name (eq_text→eq n.path p e) in
      rw (ap (λ m. eq_text m (record_name p)) same ∙ eq_text_refl (record_name p), e, ed)
        (ap (λ o. as_record o (some n)) (ap (λ m. file_at m d) (sym same) ∙ gone)
          ∙ sym (as_record-document n (file_at p out)))
  | inr e ↦ rw (ap (λ m. eq_text m (record_name p)) en ∙ same_test n.path p s sp ∙ e, e) refl
]

collect_ok :
    (d : Dir Members) (out : Dir NarInfo)
    → IsRecords d
    → IsDistinct d
    → (res : Dir NarInfo) × (collect d out ≡ ok res)
      × ((p : Text)
          → IsStorePath p
          → file_at p res ≡ as_record (file_at (record_name p) d) (file_at p out))
unfolding collect file_at
collect_ok [] out h once = (out, refl, λ p s. refl)
collect_ok ((name, doc) ∷ d) out ((n, s, en, ed), h) once =
    let (res, e, all) = collect_ok d (write n.path n out) h (rest-IsDistinct name doc d once) in
    (
      res,
      rw (ed, nar_from_dict-nar_to_dict n) e,
      λ p sp.
          all p sp
          ∙ ap (as_record (file_at (record_name p) d)) (file_at-write p n.path n out)
          ∙ looked name doc d n p out s sp en ed (nothing_at name d (first_only name doc d once)),
    )

-- The last of some records with a path, or what was there before.
abbrev pub latest_record : List NarInfo → Text → Option NarInfo → Option NarInfo
latest_record [] p before = before
latest_record (n ∷ ns) p before = latest_record ns p (if eq_text n.path p then some n else before)

save_records-IsRecords :
    (ns : List NarInfo) (d : Dir Members)
    → AllStore ns
    → IsRecords d
    → IsRecords (save_records ns d)
unfolding save_records
save_records-IsRecords [] d s h = h
save_records-IsRecords (n ∷ ns) d (s, ss) h =
    save_records-IsRecords ns _ ss (write-IsRecords n d s h)

save_records-IsDistinct :
    (ns : List NarInfo) (d : Dir Members) → IsDistinct d → IsDistinct (save_records ns d)
unfolding save_records
save_records-IsDistinct [] d h = h
save_records-IsDistinct (n ∷ ns) d h =
    save_records-IsDistinct ns _ (write-IsDistinct (record_name n.path) (nar_to_dict n) d h)

-- A record that is written is what its path is looked up as.
written_record :
    (n : NarInfo) (p : Text) (o : Option Members)
    → IsStorePath n.path
    → IsStorePath p
    → as_record
        (if eq_text (record_name n.path) (record_name p) then some (nar_to_dict n) else o)
        none
      ≡ (if eq_text n.path p then some n else as_record o none)
written_record n p o s sp = elim (Bool-cases (eq_text n.path p)) [
  | inl e ↦ rw (same_test n.path p s sp ∙ e, e) (as_record-document n none)
  | inr e ↦ rw (same_test n.path p s sp ∙ e, e) refl
]

saved_record :
    (ns : List NarInfo) (d : Dir Members) (p : Text)
    → AllStore ns
    → IsStorePath p
    → as_record (file_at (record_name p) (save_records ns d)) none
      ≡ latest_record ns p (as_record (file_at (record_name p) d) none)
unfolding save_records
saved_record [] d p s sp = refl
saved_record (n ∷ ns) d p (s, ss) sp =
    saved_record ns _ p ss sp
    ∙ ap (λ o. latest_record ns p (as_record o none))
        (file_at-write (record_name p) (record_name n.path) (nar_to_dict n) d)
    ∙ ap (latest_record ns p) (written_record n p (file_at (record_name p) d) s sp)

-- On a store of records of store paths whose names are distinct, what is saved and then loaded has,
-- for each path of the store, the last of the saved records with this path, and where there is none,
-- what the store loaded before. The saved records are of paths of the store.
pub load_records-save_records :
    (ns : List NarInfo) (d : Dir Members)
    → AllStore ns
    → IsRecords d
    → IsDistinct d
    → (before : Dir NarInfo) × (after : Dir NarInfo) × (load_records d ≡ ok before)
      × (load_records (save_records ns d) ≡ ok after)
      × ((p : Text) → IsStorePath p → file_at p after ≡ latest_record ns p (file_at p before))
unfolding load_records
load_records-save_records ns d s h once =
    let (before, eb, lb) = collect_ok d [] h once in
    let (after, ea, la) =
      collect_ok (save_records ns d) [] (save_records-IsRecords ns d s h)
        (save_records-IsDistinct ns d once) in
    (
      before,
      after,
      eb,
      ea,
      λ p sp.
          unfold file_at in
          la p sp ∙ saved_record ns d p s sp ∙ ap (latest_record ns p) (sym (lb p sp)),
    )
