-- ===== src/D6r/Start.antt =====
-- The start of the relay in `main`: the command line, and the interfaces on which it listens. The options are
-- those that `getopt` returns, in order.
use school_projects.Base.{
  ◌≡◌, inl, inr, refl, Bool, true, false, not, ◌&&◌, Bool-cases, Option, none, some, List, [], ◌∷◌,
  if◌then◌else◌,
}
use school_projects.D6r.{Text}
use school_projects.D6r.Client.{Address, Interface, link_address}
use school_projects.D6r.Server.{same_text, is_some}

pub data CliOption : Type 0 where
  server : Text → CliOption
  log : CliOption
  debug : CliOption
  interface : Text → CliOption
  missing_value : CliOption
  unknown : CliOption

pub record Arguments : Type 0 where
  pub server_arg : Option Text
  pub interface : Option Text
  pub log_enabled : Bool
  pub debug_enabled : Bool

abbrev pub no_arguments : Arguments
no_arguments = record {
  server_arg = none;
  interface = none;
  log_enabled = false;
  debug_enabled = false;
}

-- The loop over the options; none is the exit with 1.
unfoldable pub take_options : List CliOption → Arguments → Option Arguments
take_options [] a = some a
take_options (server s ∷ os) a = take_options os (record a { server_arg = some s })
take_options (log ∷ os) a = take_options os (record a { log_enabled = true })
take_options (debug ∷ os) a = take_options os (record a { debug_enabled = true })
take_options (CliOption.interface i ∷ os) a = take_options os (record a { interface = some i })
take_options (missing_value ∷ os) a = none
take_options (unknown ∷ os) a = none

-- Without a server, or with an argument that is no option, the program ends.
abbrev pub check_server : Arguments → Option Arguments
check_server a = if is_some a.server_arg then some a else none

unfoldable pub get_arguments : List CliOption → (extra : Bool) → Option Arguments
unfolding take_options
get_arguments os extra = elim (take_options os no_arguments) [
  | none ↦ none
  | some a ↦ if extra then none else check_server a
]

-- `interfaces_to_be_sniffed.empty()`, or the name is not that of its last one; the last one is first here.
abbrev pub is_new : Interface → List Interface → Bool
is_new i [] = true
is_new i (last ∷ chosen) = not (same_text i.name last.name)

-- The interface that `-i` names, or any.
abbrev pub asked_for : Option Text → Interface → Bool
asked_for none i = true
asked_for (some name) i = same_text name i.name

and_true : (b c : Bool) → (b && c) ≡ true → (b ≡ true) × (c ≡ true)
and_true true c e = (refl, e)
and_true false c e = absurd cc

module _ (wanted : Option Text) where
  unfoldable pub take_address : Interface → Address → List Interface → List Interface
  take_address i a chosen =
      if (a.is_ipv6 && a.has_mask) && (is_new i chosen && asked_for wanted i)
      then i ∷ chosen
      else chosen

  unfoldable pub take_interface : Interface → List Address → List Interface → List Interface
  unfolding take_address
  take_interface i [] chosen = chosen
  take_interface i (a ∷ addresses) chosen = take_interface i addresses (take_address i a chosen)

  -- `interfaces_to_be_sniffed`, last one first.
  unfoldable pub take_interfaces : List Interface → List Interface → List Interface
  unfolding take_interface
  take_interfaces [] chosen = chosen
  take_interfaces (i ∷ is) chosen = take_interfaces is (take_interface i i.addresses chosen)

  -- The interfaces that were chosen can all relay: they have a link address, and are asked for.
  abbrev Usable : List Interface → Type 0
  Usable [] = Unit
  Usable (i ∷ is) =
      (is_some (link_address i.addresses) ≡ true) × (asked_for wanted i ≡ true) × Usable is

  take_address-Usable :
      (i : Interface) (a : Address) (chosen : List Interface)
      → ((a.is_ipv6 && a.has_mask) ≡ true → is_some (link_address i.addresses) ≡ true)
      → Usable chosen
      → Usable (take_address i a chosen)
  unfolding take_address
  take_address-Usable i a chosen linked h =
      elim (Bool-cases ((a.is_ipv6 && a.has_mask) && (is_new i chosen && asked_for wanted i))) [
        | inl taken ↦
            let (fits, more) = and_true _ _ taken in
            let (new, asked) = and_true _ _ more in rw taken (linked fits, asked, h)
        | inr passed ↦ rw passed h
      ]

  take_interface-Usable :
      (i : Interface) (addresses : List Address) (chosen : List Interface)
      → (is_some (link_address addresses) ≡ true → is_some (link_address i.addresses) ≡ true)
      → Usable chosen
      → Usable (take_interface i addresses chosen)
  unfolding take_interface
  take_interface-Usable i [] chosen sub h = h
  take_interface-Usable i (a ∷ addresses) chosen sub h =
      let later : is_some (link_address addresses) ≡ true
          → is_some (link_address (a ∷ addresses)) ≡ true =
        λ e. elim (Bool-cases (a.is_ipv6 && a.has_mask)) [
          | inl fits ↦ rw fits refl
          | inr passed ↦ rw passed e
        ] in
      take_interface-Usable i addresses (take_address i a chosen) (λ e. sub (later e))
        (take_address-Usable i a chosen (λ fits. sub (rw fits refl)) h)

  all-Usable : (is chosen : List Interface) → Usable chosen → Usable (take_interfaces is chosen)
  unfolding take_interfaces
  all-Usable [] chosen h = h
  all-Usable (i ∷ is) chosen h =
      all-Usable is (take_interface i i.addresses chosen)
        (take_interface-Usable i i.addresses chosen (λ e. e) h)

  -- Every interface on which the relay listens has an address to put into its messages, and is the one that is
  -- asked for, if one is.
  take_interfaces-Usable : (is : List Interface) → Usable (take_interfaces is [])
  take_interfaces-Usable is = all-Usable is [] tt
