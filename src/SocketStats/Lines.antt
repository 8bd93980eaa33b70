-- ===== src/SocketStats/Lines.antt =====
-- Lines of words as `ParseLineSS` of heyp/host-agent/parse-ss.cc reads them.
use heyp_agents.Prelude.Text.{Bytes}
use heyp_agents.Prelude.{ℕ, Bool, true, false, not, ◌&&◌, List, [], ◌∷◌, ◌++◌, Option, some, ◌≡◌}
use heyp_agents.Urls.{first_is, is_blank, str_contains}
use heyp_agents.Urls.RoundTrip.{host_port_text}
use heyp_agents.SocketStats.{is_space}

-- A word: at least one byte, and no white space.
unfoldable pub has_no_space : Bytes → Bool
has_no_space [] = true
has_no_space (c ∷ s) = not (is_space c) && has_no_space s

abbrev pub IsWord : Bytes → Type 0
IsWord w = (is_blank w ≡ false) × (has_no_space w ≡ true)

-- The words with a space between each two.
unfoldable pub unwords : Bytes → List Bytes → Bytes
unwords w [] = w
unwords w (v ∷ words) = w ++ b' ' ∷ unwords v words

-- What the parser of an address relies on: an address, which is not empty and does not begin with a
-- bracket, and digits that are read as the port.
pub record IsAddr (simple_atoi : Bytes → Option ℕ) (host digits : Bytes) (port : ℕ) : Type 0 where
  pub some_host : is_blank host ≡ false
  pub no_bracket : first_is b'[' host ≡ false
  pub no_colon : str_contains b':' digits ≡ false
  pub is_port : simple_atoi digits ≡ some port
  pub is_word : IsWord (host_port_text host digits)
