-- ===== src/Macros/Keyword.antt =====
-- chalk-metrics-macros/src/lib.rs: `kw`, and the punctuation of the grammars.
use chalk_metrics.Macros.Syn.{Mark, word, sign}
use chalk_metrics.Prelude.Text.{codes}

abbrev pub group : Mark
group = word (codes "group")

abbrev pub namespace : Mark
namespace = word (codes "namespace")

abbrev pub parent : Mark
parent = word (codes "parent")

abbrev pub tags : Mark
tags = word (codes "tags")

abbrev pub optional : Mark
optional = word (codes "optional")

abbrev pub alias : Mark
alias = word (codes "as")

abbrev pub comma : Mark
comma = sign (codes ",")

abbrev pub semicolon : Mark
semicolon = sign (codes ";")

abbrev pub equals : Mark
equals = sign (codes "=")

abbrev pub plus_equals : Mark
plus_equals = sign (codes "+=")

abbrev pub arrow : Mark
arrow = sign (codes "=>")
