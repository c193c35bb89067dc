-- ===== src/Container/Specification.antt =====
-- tools/actions/container_manager.py: what the daemon promises, as a machine that is free or held.
use waydroid.Base.{◌≡◌, String, true, Option, none, some, List, [], ◌∷◌, ◌==◌, string_eq}
use waydroid.Base.Dict
use waydroid.Base.Text.{str}
use waydroid.Container.Bus.{Caller, Call}
use waydroid.Images.Rootfs.{Session}

-- Free, or held by the user that the tracked session names.
pub data Holder : Type 0 where
  free : Holder
  held : Option String → Holder

-- What the specification sees of a daemon.
abbrev pub holder_of : Option Session → Holder
holder_of none = free
holder_of (some session) = held (Dict.lookup "user_id" session)

abbrev pub IsRoot : Caller → Type 0
IsRoot caller = (str caller.uid == "0") ≡ true

-- The steps of the specification, for the caller of each: nothing happens; a free machine is taken,
-- by root for any user and by a user for himself; or it is freed, by root or by its holder.
pub data Step : Caller → Holder → Holder → Type 0 where
  stays : {c : Caller} {h : Holder} → Step c h h
  taken_by_root : {c : Caller} {user : String} → IsRoot c → Step c free (held (some user))
  taken : {c : Caller} → Step c free (held (some (str c.uid)))
  freed_by_root : {c : Caller} {user : Option String} → IsRoot c → Step c (held user) free
  freed : {c : Caller} → Step c (held (some (str c.uid))) free

-- Steps for a sequence of callers.
pub data Steps : List Caller → Holder → Holder → Type 0 where
  done : {h : Holder} → Steps [] h h
  next :
      {c : Caller} {cs : List Caller} {h i j : Holder}
      → Step c h i
      → Steps cs i j
      → Steps (c ∷ cs) h j

abbrev pub callers : List (Call × Caller) → List Caller
callers [] = []
callers ((_, caller) ∷ rest) = caller ∷ callers rest
