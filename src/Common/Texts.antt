-- ===== src/Common/Texts.antt =====
-- `==` of std::string, where it compares whole texts that are not walked.
use Prim.Native.String.{String}
use text.Mathlib.Text.{◌==◌}
use mathlib.Core.Bool.{Bool}

abbrev pub text_eq : String → String → Bool
text_eq s t = s == t
