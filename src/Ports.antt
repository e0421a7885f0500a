-- ===== src/Ports.antt =====
-- internal/core/services/instance.go (`parseAndValidatePorts`, `parsePort`) and
-- autoscaling_worker.go (`toDynamicPorts`): port mappings "host:container,host:container".
pub mod Strings
pub mod Pieces
pub mod Dynamic
mod Tests
use thecloud.Prelude.{
  ℕ, Bool, true, false, Option, none, some, List, [], ◌∷◌, ◌++◌, map, Text, text, length, ltb, ◌||◌,
  if◌then◌else◌,
}
use thecloud.Prelude.Int.{ℤ, pos, ltb_ℤ}
use thecloud.Errors.{Error, new, plain, too_many_ports, invalid_port_format}
use thecloud.Action.{Result, ok, err, Done}
use Strings.{split, join, trim_space, atoi}

abbrev pub min_port : ℕ
min_port = 0

abbrev pub max_port : ℕ
max_port = 65535

abbrev pub max_ports_per_instance : ℕ
max_ports_per_instance = 10

-- `parsePort`.
unfoldable pub parse_port : Text → Option ℤ
unfolding trim_space atoi
parse_port s = let t = trim_space s in elim t [ [] ↦ none | b ∷ r ↦ atoi (b ∷ r) ]

-- The two range tests on a port.
abbrev pub out_of_range : ℤ → Bool
out_of_range p = ltb_ℤ p (pos min_port) || ltb_ℤ (pos max_port) p

-- One mapping, split at its colons.
unfoldable pub validate_parts : List Text → Result Done
validate_parts [] = err (new invalid_port_format)
validate_parts (h ∷ []) = err (new invalid_port_format)
validate_parts (h ∷ c ∷ []) = elim (parse_port h) [
  | none ↦ err (new invalid_port_format)
  | some host ↦ elim (parse_port c) [
    | none ↦ err (new invalid_port_format)
    | some container ↦
        if out_of_range host || out_of_range container then err (new invalid_port_format) else ok tt
  ]
]
validate_parts (h ∷ c ∷ d ∷ ps) = err (new invalid_port_format)

-- The loop over the mappings.
unfoldable pub validate_all : List Text → Result Done
validate_all [] = ok tt
validate_all (p ∷ ps) = elim (validate_parts (split b':' p)) [
  | ok d ↦ validate_all ps
  | err x ↦ err x
]

-- `parseAndValidatePorts`: no mapping for the empty text.
unfoldable pub parse_and_validate_ports : Text → Result (List Text)
parse_and_validate_ports [] = ok []
parse_and_validate_ports (b ∷ s) =
    let list = split b',' (b ∷ s) in
    if ltb max_ports_per_instance (length list)
    then err (new too_many_ports)
    else (elim (validate_all list) [ ok d ↦ ok list | err x ↦ err x ])

-- The host port of a mapping becomes 0, and anything else stays.
abbrev pub dynamic_parts : Text → List Text → Text
dynamic_parts p (h ∷ c ∷ []) = text "0:" ++ c
dynamic_parts p _ = p

abbrev pub dynamic_port : Text → Text
dynamic_port p = dynamic_parts p (split b':' p)

-- `toDynamicPorts` of the auto-scaling worker.
unfoldable pub to_dynamic_ports : Text → Text
to_dynamic_ports [] = []
to_dynamic_ports (b ∷ s) = join b',' (map dynamic_port (split b',' (b ∷ s)))
