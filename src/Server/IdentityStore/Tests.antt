-- ===== src/Server/IdentityStore/Tests.antt =====
-- A store with one name taken, and each theorem about registration at it.
use spotjam.Prelude.{String, Bool, not, ◌==◌, if◌then◌else◌, pos, some, ◌≡◌, refl}
use spotjam.Prelude.Dict
use spotjam.Server.IdentityStore.{
  IdentityStore, IdentityRecord, empty_store, register, decide_registration, registered, refused,
  username_taken,
}
use spotjam.Server.IdentityStore.Laws.{
  IsIndexed, empty_store-IsIndexed, register-IsIndexed, register_keeps,
}

abbrev long_enough : String → Bool
long_enough name = not (name == "")

-- A store where `k1` has taken the name `Ann`, which folds to `ann`.
abbrev fold_case : String → String
fold_case name = if name == "Ann" then "ann" else name

abbrev one_name : IdentityStore
one_name = (register long_enough fold_case empty_store "k1" "Ann" (pos 7)).0

abbrev ann : IdentityRecord
ann = record {
  pubkey = "k1";
  username = "Ann";
  normalized_username = "ann";
  created_at_epoch_ms = pos 7;
}

one_name-IsIndexed : IsIndexed one_name
one_name-IsIndexed =
    register-IsIndexed long_enough fold_case empty_store "k1" "Ann" (pos 7) empty_store-IsIndexed

registrations :
    (Dict.get "k1" one_name.by_pubkey ≡ some ann)
    × ((register long_enough fold_case one_name "k2" "ann" (pos 9)).1 ≡ refused username_taken)
    × ((register long_enough fold_case one_name "k1" "ann" (pos 9)).1 ≡ registered ann)
unfolding register decide_registration Dict.get Dict.put
registrations = (refl, refl, refl)

register-IsIndexed_example :
    IsIndexed (register long_enough fold_case one_name "k2" "ann" (pos 9)).0
register-IsIndexed_example =
    register-IsIndexed long_enough fold_case one_name "k2" "ann" (pos 9) one_name-IsIndexed

register_keeps_example :
    (Dict.get "k1" (register long_enough fold_case one_name "k2" "bob" (pos 9)).0.by_pubkey
      ≡ some ann)
    × (Dict.get "ann" (register long_enough fold_case one_name "k2" "bob" (pos 9)).0.by_name
        ≡ some ann)
register_keeps_example =
    register_keeps long_enough fold_case one_name "k2" "bob" (pos 9) "k1" ann one_name-IsIndexed
      registrations.0
