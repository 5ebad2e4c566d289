-- ===== src/Acl.antt =====
-- src/acl.rs: allowed and denied networks. An address is its version and number, IPv4-mapped IPv6
-- addresses are those of ::ffff:0:0/96. The `ipnetwork` crate is the parameters of the sections:
-- `contains` of a network, and `parse` of its text.
pub mod Decisions
mod Examples
use xfr.Prelude.{
  ℕ, ◌+◌, ◌*◌, ◌^◌, ◌/◌, ◌%◌, Bool, true, false, not, ◌||◌, ◌&&◌, Option, none, some, List, [], ◌∷◌,
  ◌++◌, ◌==◌, if◌then◌else◌,
}

pub data IpAddr : Type 0 where
  v4 : ℕ → IpAddr  -- 32 bits
  v6 : ℕ → IpAddr  -- 128 bits

-- `to_ipv4_mapped`: ten zero bytes, two of 0xff, then the IPv4 address
unfoldable pub normalize_ip : IpAddr → IpAddr
normalize_ip (v4 a) = v4 a
normalize_ip (v6 a) = if a / 2 ^ 32 == 0xffff then v4 (a % 2 ^ 32) else v6 a

-- a rule as `matched_rule` words it
pub data Rule (Network : Type 0) : Type 0 where
  deny_rule : Network → Rule Network
  allow_rule : Network → Rule Network

pub record Acl (Network : Type 0) : Type 0 where
  pub allow : List Network
  pub deny : List Network

pub record AclConfig (Text : Type 0) : Type 0 where
  pub allow : List Text
  pub deny : List Text
  pub file : Option Text

-- a line of the file after `trim`: the words that `split_whitespace` gives, the first in lower case
pub data FileLine (Text : Type 0) : Type 0 where
  blank_or_comment : FileLine Text
  words : List Text → FileLine Text

pub data Directive : Type 0 where
  allow_directive : Directive
  deny_directive : Directive
  unknown_directive : Directive

module _ {Network : Type 0} where
  unfoldable pub new : Acl Network
  new = record { allow = []; deny = [] }

  unfoldable pub add_allow : Network → Acl Network → Acl Network
  add_allow network acl = record acl { allow = acl.allow ++ network ∷ [] }

  unfoldable pub add_deny : Network → Acl Network → Acl Network
  add_deny network acl = record acl { deny = acl.deny ++ network ∷ [] }

  abbrev pub is_empty : List Network → Bool
  is_empty [] = true
  is_empty (n ∷ ns) = false

  unfoldable pub is_configured : Acl Network → Bool
  is_configured acl = not (is_empty acl.allow) || not (is_empty acl.deny)

-- Deciding over an address.
module _ {Network : Type 0} (contains : Network → IpAddr → Bool) where
  -- the loop over the networks: does one contain the address, and the first that does
  unfoldable pub any_contains : List Network → IpAddr → Bool
  any_contains [] ip = false
  any_contains (n ∷ ns) ip = let rest = any_contains ns ip in if contains n ip then true else rest

  unfoldable pub first_containing : List Network → IpAddr → Option Network
  first_containing [] ip = none
  first_containing (n ∷ ns) ip =
      let rest = first_containing ns ip in if contains n ip then some n else rest

  unfoldable pub is_allowed : Acl Network → IpAddr → Bool
  is_allowed acl ip =
      let ip = normalize_ip ip in
      if any_contains acl.deny ip
      then false
      else if is_empty acl.allow
      then true
      else any_contains acl.allow ip

  abbrev pub or_allow : Option Network → Option Network → Option (Rule Network)
  or_allow (some denied) allowed = some (deny_rule denied)
  or_allow none (some allowed) = some (allow_rule allowed)
  or_allow none none = none

  unfoldable pub matched_rule : Acl Network → IpAddr → Option (Rule Network)
  matched_rule acl ip =
      let ip = normalize_ip ip in
      or_allow (first_containing acl.deny ip) (first_containing acl.allow ip)

-- Building a list from text; none is an error.
module _ {Network Text : Type 0} (parse : Text → Option Network) where
  abbrev pub cons_parsed : Option Network → Option (List Network) → Option (List Network)
  cons_parsed none rest = none
  cons_parsed (some n) none = none
  cons_parsed (some n) (some ns) = some (n ∷ ns)

  unfoldable pub parse_all : List Text → Option (List Network)
  parse_all [] = some []
  parse_all (t ∷ ts) = cons_parsed (parse t) (parse_all ts)

  abbrev pub both_lists : Option (List Network) → Option (List Network) → Option (Acl Network)
  both_lists none deny = none
  both_lists (some allow) none = none
  both_lists (some allow) (some deny) = some (record { allow = allow; deny = deny })

  unfoldable pub from_rules : List Text → List Text → Option (Acl Network)
  from_rules allow deny = both_lists (parse_all allow) (parse_all deny)

  -- one line's directive and network added
  abbrev pub add_line : Option Network → Directive → Acl Network → Option (Acl Network)
  add_line none directive acl = none
  add_line (some n) allow_directive acl = some (add_allow n acl)
  add_line (some n) deny_directive acl = some (add_deny n acl)
  add_line (some n) unknown_directive acl = none

  abbrev pub after :
      (Acl Network → Option (Acl Network)) → Option (Acl Network) → Option (Acl Network)
  after next none = none
  after next (some acl) = next acl

  -- the word of a directive, in lower case
  unfoldable pub read_line : (Text → Directive) → FileLine Text → Acl Network → Option (Acl Network)
  read_line directive blank_or_comment acl = some acl
  read_line directive (words []) acl = none
  read_line directive (words (a ∷ [])) acl = none
  read_line directive (words (a ∷ b ∷ [])) acl = add_line (parse b) (directive a) acl
  read_line directive (words (a ∷ b ∷ c ∷ more)) acl = none

  unfoldable pub read_lines :
      (Text → Directive) → List (FileLine Text) → Acl Network → Option (Acl Network)
  read_lines directive [] acl = some acl
  read_lines directive (l ∷ lines) acl =
      after (read_lines directive lines) (read_line directive l acl)

  -- the file's lines, none where it cannot be read
  unfoldable pub from_file :
      (Text → Directive) → Option (List (FileLine Text)) → Option (Acl Network)
  from_file directive none = none
  from_file directive (some lines) = read_lines directive lines new

  -- the command line's rules on top
  abbrev pub add_allow_text : Option Network → Acl Network → Option (Acl Network)
  add_allow_text none acl = none
  add_allow_text (some n) acl = some (add_allow n acl)

  abbrev pub add_deny_text : Option Network → Acl Network → Option (Acl Network)
  add_deny_text none acl = none
  add_deny_text (some n) acl = some (add_deny n acl)

  unfoldable pub add_allows : List Text → Acl Network → Option (Acl Network)
  add_allows [] acl = some acl
  add_allows (t ∷ ts) acl = after (add_allows ts) (add_allow_text (parse t) acl)

  unfoldable pub add_denies : List Text → Acl Network → Option (Acl Network)
  add_denies [] acl = some acl
  add_denies (t ∷ ts) acl = after (add_denies ts) (add_deny_text (parse t) acl)

  abbrev pub start :
      (Text → Directive)
      → (Text → Option (List (FileLine Text)))
      → Option Text
      → Option (Acl Network)
  start directive read none = some new
  start directive read (some path) = from_file directive (read path)

  -- reading and splitting the file's lines is the file system's and the library's
  unfoldable pub build :
      (Text → Directive)
      → (Text → Option (List (FileLine Text)))
      → AclConfig Text
      → Option (Acl Network)
  build directive read c =
      after (add_denies c.deny) (after (add_allows c.allow) (start directive read c.file))
