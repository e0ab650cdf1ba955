-- ===== src/Commands/Interfaces.antt =====
-- httpclient/command.go: the network's interfaces, as they are listed and as they complete a flag. The
-- interfaces and the text of an error come from `net`.
use joe_cli_http.Prelude.{Bool, true, false, List, [], ◌∷◌, ◌++◌, if◌then◌else◌, Bytes}
use joe_cli_http.Prelude.Text.{codes}

-- What `Addrs` gives: an error by its text, or each address with its network.
pub data Addresses : Type 0 where
  no_addresses : Bytes → Addresses
  addresses : List (Bytes × Bytes) → Addresses

pub record Interface : Type 0 where
  pub name : Bytes
  pub addrs : Addresses

-- The loop over the addresses; `later` is `i > 0`.
unfoldable pub print_addresses : Bool → List (Bytes × Bytes) → Bytes
print_addresses later [] = []
print_addresses later (a ∷ rest) =
    (if later then codes "\n" else [])
    ++ (codes "\t" ++ a.0 ++ codes "\t" ++ a.1)
    ++ print_addresses true rest

-- `listInterfaces`
unfoldable pub list_interfaces : List Interface → Bytes
unfolding print_addresses
list_interfaces [] = []
list_interfaces (s ∷ eths) =
    elim s.addrs [
      | no_addresses e ↦ s.name ++ codes "\t" ++ e ++ codes "\n"
      | addresses found ↦ s.name ++ print_addresses false found ++ codes "\n"
    ]
    ++ list_interfaces eths

abbrev pub address_texts : List (Bytes × Bytes) → List Bytes
address_texts [] = []
address_texts (a ∷ rest) = a.1 ∷ address_texts rest

-- `completeInterfaces`, up to the completion by these values
unfoldable pub complete_interfaces : List Interface → List Bytes
complete_interfaces [] = []
complete_interfaces (s ∷ eths) =
    s.name ∷ elim s.addrs [ no_addresses e ↦ [] | addresses found ↦ address_texts found ]
    ++ complete_interfaces eths
