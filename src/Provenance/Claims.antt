-- ===== src/Provenance/Claims.antt =====
-- What the printed forms of a stroke determine, and signing.
use desmata.Prelude.{◌≡◌, refl, ◌↔◌, ap, List, [], ◌∷◌}
use desmata.Prelude.Texts.{Text}
use desmata.Wave.Value.{ℤ}
use desmata.Wit.Values.{Json, int, text, array, nil, cons}
use desmata.Dumps.{dumps}
use desmata.Dumps.Cancel.{IsExact, AreExact}
use desmata.Dumps.Injective.{dumps-injective}
use desmata.Provenance.{
  Brushstroke, texts, pairs, or_none, fact_value, fact, canonical_value, canonical,
}

texts-AreExact : (ts : List Text) → AreExact (texts ts)
unfolding texts
texts-AreExact [] = tt
texts-AreExact (t ∷ ts) = (tt, texts-AreExact ts)

pairs-AreExact : (vs : List (ℤ × ℤ)) → AreExact (pairs vs)
unfolding pairs
pairs-AreExact [] = tt
pairs-AreExact ((i, v) ∷ vs) = ((tt, (tt, tt)), pairs-AreExact vs)

texts-injective : (ts us : List Text) → texts ts ≡ texts us → ts ≡ us
unfolding texts
texts-injective [] [] h = refl
texts-injective [] (u ∷ us) h = cc
texts-injective (t ∷ ts) [] h = cc
texts-injective (t ∷ ts) (u ∷ us) h = let e = texts-injective ts us cc in cc

pairs-injective : (vs ws : List (ℤ × ℤ)) → pairs vs ≡ pairs ws → vs ≡ ws
unfolding pairs
pairs-injective [] [] h = refl
pairs-injective [] (w ∷ ws) h = cc
pairs-injective (v ∷ vs) [] h = cc
pairs-injective ((i, v) ∷ vs) ((j, w) ∷ ws) h = let e = pairs-injective vs ws cc in cc

-- What a claim says, apart from who placed it and when.
pub record Claim : Type 0 where
  pub color : Text
  pub palette : Text
  pub args : List Text

abbrev pub claim : Brushstroke → Claim
claim b = record { color = b.color; palette = b.palette; args = b.args }

-- What identifies a stroke: its claim, and who placed it, when, and under which versions.
pub record Identity : Type 0 where
  pub claimed : Claim
  pub signer : Text
  pub created_at : ℤ
  pub suite : Text
  pub versions : List (ℤ × ℤ)

abbrev pub identity : Brushstroke → Identity
identity b = record {
  claimed = claim b;
  signer = b.signer;
  created_at = b.created_at;
  suite = b.suite;
  versions = or_none b.arg_versions;
}

fact_value-IsExact : (b : Brushstroke) → IsExact (fact_value b)
unfolding fact_value
fact_value-IsExact b = (tt, (tt, (texts-AreExact b.args, tt)))

canonical_value-IsExact : (b : Brushstroke) → IsExact (canonical_value b)
unfolding canonical_value
canonical_value-IsExact b = (
  tt,
  (tt, (texts-AreExact b.args, (tt, (tt, (tt, (pairs-AreExact (or_none b.arg_versions), tt)))))),
)

fact_value-claim : (b c : Brushstroke) → fact_value b ≡ fact_value c → claim b ≡ claim c
unfolding fact_value
fact_value-claim b c h = let e = texts-injective b.args c.args cc in cc

canonical_value-identity :
    (b c : Brushstroke) → canonical_value b ≡ canonical_value c → identity b ≡ identity c
unfolding canonical_value
canonical_value-identity b c h =
    let e = texts-injective b.args c.args cc in
    let v = pairs-injective (or_none b.arg_versions) (or_none c.arg_versions) cc in cc

of_claim : Claim → Json
of_claim c = array (cons (text c.color) (cons (text c.palette) (cons (array (texts c.args)) nil)))

of_identity : Identity → Json
of_identity i = array (
    cons (text i.claimed.color) (
      cons (text i.claimed.palette) (
        cons (array (texts i.claimed.args)) (
          cons (text i.signer) (
            cons (int i.created_at) (cons (text i.suite) (cons (array (pairs i.versions)) nil)))))))

pub claim-fact : (b c : Brushstroke) → claim b ≡ claim c → fact b ≡ fact c
unfolding fact fact_value
claim-fact b c h = unfold of_claim in ap (λ i. dumps (of_claim i)) h

identity-canonical : (b c : Brushstroke) → identity b ≡ identity c → canonical b ≡ canonical c
unfolding canonical canonical_value
identity-canonical b c h = unfold of_identity in ap (λ i. dumps (of_identity i)) h

-- Two strokes have the same fact if and only if they make the same claim: color, palette and
-- arguments. Who signed them, and when, makes no difference.
pub fact-eq_iff : (b c : Brushstroke) → (fact b ≡ fact c) ↔ (claim b ≡ claim c)
unfolding fact
fact-eq_iff b c = (
  λ h. fact_value-claim b c (
      dumps-injective (fact_value b) (fact_value c) (fact_value-IsExact b) (fact_value-IsExact c)
        h),
  claim-fact b c,
)

-- Two strokes have the same canonical form if and only if they agree in everything but the signature;
-- no versions and an empty list of versions count as the same.
canonical-eq_iff : (b c : Brushstroke) → (canonical b ≡ canonical c) ↔ (identity b ≡ identity c)
unfolding canonical
canonical-eq_iff b c = (
  λ h. canonical_value-identity b c (
      dumps-injective (canonical_value b) (canonical_value c) (canonical_value-IsExact b)
        (canonical_value-IsExact c) h),
  identity-canonical b c,
)
