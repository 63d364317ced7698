-- ===== src/Tests/Cli.antt =====
-- Command lines of the UEFI tool.
use Prim.Native.String.{String}
use framework_system.Base.{List, [], ◌∷◌, ◌++◌, ◌≡◌, refl, some}
use framework_system.Cli.Parse.{parse}
use framework_system.Cli.Parse.Flags.{parse-capsule}

abbrev flash : List String
flash = "--driver" ∷ "cros_ec" ∷ "--flash-ec" ∷ "ec.bin" ∷ []

parse-capsule_example :
    (parse (flash ++ ("--capsule" ∷ "new.cap" ∷ "--dump" ∷ []))).capsule ≡ some "new.cap"
parse-capsule_example = parse-capsule flash "new.cap" ("--dump" ∷ []) (refl, (refl, tt))
