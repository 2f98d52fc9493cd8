-- ===== src/Content/Examples.antt =====
-- The theorems on content addresses at a sample.
use desmata.Prelude.{◌≡◌, ◌↔◌, false}
use desmata.Prelude.Results.{ok}
use desmata.Prelude.Texts.{codes}
use desmata.Content.{Hash, ipfs, parse, show_hash, is_empty}
use desmata.Content.RoundTrip.{parse-eq-ok_iff}

abbrev sample : Hash
sample = record { backend = ipfs; digest = codes "QmYwAPJzv5CZ" }

parse-eq-ok_iff_example :
    (parse (codes "dsm:ipfs:QmYwAPJzv5CZ") ≡ ok sample)
    ↔ ((codes "dsm:ipfs:QmYwAPJzv5CZ" ≡ show_hash sample) × (is_empty sample.digest ≡ false))
parse-eq-ok_iff_example = parse-eq-ok_iff (codes "dsm:ipfs:QmYwAPJzv5CZ") sample
