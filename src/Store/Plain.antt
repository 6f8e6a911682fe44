-- ===== src/Store/Plain.antt =====
-- The simplest store: a function from sectors to their bytes.
use cs162_group.Prelude.{ℕ, ◌≡◌, refl, Option, some}
use cs162_group.Block.{Data, overwrite}
use cs162_group.Store.{Store}

abbrev pub read_plain : ℕ → (ℕ → Data) → Option (Data × (ℕ → Data))
read_plain s w = some (w s, w)

abbrev pub write_plain : ℕ → Data → (ℕ → Data) → Option (ℕ → Data)
write_plain s d w = some (overwrite w s d)

abbrev pub plain : Store
plain = record {
  State = ℕ → Data;
  read = read_plain;
  write = write_plain;
  Holds = λ w f n. (s : ℕ) → w s ≡ f s;
  read_lem = λ w f n s h lt. ((w s, w), refl, (h s, h));
  write_lem = λ w f n s d h lt. (overwrite w s d, refl, λ t. rw (h t) refl);
}
