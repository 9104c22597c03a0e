-- ===== src/Common/Texts.antt =====
-- The Boolean equality of texts, with the lemma that the tactics take at a pair.
pub use Prim.Native.String.{String}
pub use text.Mathlib.Text.{◌==◌ as str_eq}
pub use text.Mathlib.TextEquality.{eq_iff as str_eq_iff}
pub use text.Mathlib.TextPositions.{eq_refl as str_eq_refl}
