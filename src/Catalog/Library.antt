-- ===== src/Catalog/Library.antt =====
-- What internal/vpscatalog calls of Go's standard library, beyond the texts and the clock: a
-- parameter of the modules beside this one.
use Prim.Native.String.{String}
use vk_turn_proxy_go.Base.{ℕ, Option}
use vk_turn_proxy_go.Catalog.Types.{CatalogSnapshot}

pub record Library : Type 0 where
  pub quote : String → String  -- the verb %q
  pub sprintf : String → String  -- `fmt.Sprintf` of a format and nothing else
  pub sprint : ℕ → String  -- `fmt.Sprint` of a uint64
  pub rfc3339 : ℕ → String
  pub rfc3339_nano : ℕ → String
  pub sha256_hex : ℕ → String → String  -- so many bytes of the SHA-256 sum, in hexadecimal
  pub marshal : CatalogSnapshot → Option String  -- `json.Marshal`
