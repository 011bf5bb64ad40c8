-- ===== src/Rdb/Leaked.antt =====
-- RdbViewer.tsx: which keys are watched.
use mulex_fk.Prelude.{◌≡◌, refl, ap, sym, ◌∙◌, true, false, List, [], ◌∷◌, ◌++◌, ◌||◌, ℕ, arith}
use mulex_fk.Prelude.Keys.{number_key, list_key, ◌==◌, same_list, same_list_iff}
use mulex_fk.Convert.Names.{TypeName}
use mulex_fk.Convert.Engine.{Text}
use mulex_fk.Stores.Sets
use mulex_fk.Stores.SetLaws.{has-insert, has-delete}
use mulex_fk.Rdb.Shown.{
  Ask, metadata, value, watch, unwatch, KeyDisplay, asks, leave, enter, select, on_metadata,
}

-- The keys that are watched once all of this has been asked for.
unfoldable pub watched_after : List Ask → List Text → List Text
watched_after [] keys = keys
watched_after (watch key ∷ rest) keys = watched_after rest (Sets.insert keys key)
watched_after (unwatch key ∷ rest) keys = watched_after rest (Sets.delete keys key)
watched_after (metadata key ∷ rest) keys = watched_after rest keys
watched_after (value key ∷ rest) keys = watched_after rest keys

abbrev pub watched : KeyDisplay → List Text
watched s = watched_after s.asked []

watched_after-append :
    (first more : List Ask) (keys : List Text)
    → watched_after (first ++ more) keys ≡ watched_after more (watched_after first keys)
unfolding watched_after
watched_after-append [] more keys = refl
watched_after-append (watch key ∷ rest) more keys = watched_after-append rest more _
watched_after-append (unwatch key ∷ rest) more keys = watched_after-append rest more _
watched_after-append (metadata key ∷ rest) more keys = watched_after-append rest more _
watched_after-append (value key ∷ rest) more keys = watched_after-append rest more _

-- A visit of a key: it is selected, and its metadata come before another is; the empty key closes the
-- display.
abbrev pub after_select : TypeName → Text → KeyDisplay → KeyDisplay
after_select type [] s = s
after_select type (c ∷ t) s = on_metadata type s

unfoldable pub visit : List (Text × TypeName) → KeyDisplay → KeyDisplay
unfolding select on_metadata
visit [] s = s
visit ((key, type) ∷ visits) s = visit visits (after_select type key (select key s))

abbrev only : Text → List Text
only [] = []
only (c ∷ t) = (c ∷ t) ∷ []

-- The display watches the key that it shows, if it shows one, and no other.
abbrev pub IsWatching : KeyDisplay → Type 0
IsWatching s = (s.previous ≡ s.selected) × (watched s ≡ only s.previous)

asks-watched :
    (more : List Ask) (s : KeyDisplay) → watched (asks more s) ≡ watched_after more (watched s)
asks-watched more s = watched_after-append s.asked more []

same_self : (t : Text) → (t == t) ≡ true
same_self t = (same_list_iff t t).1 refl

leave-watched : (p : Text) (s : KeyDisplay) → watched s ≡ only p → watched (leave p s) ≡ []
unfolding watched_after Sets.delete
leave-watched [] s h = h
leave-watched (c ∷ t) s h = asks-watched (unwatch (c ∷ t) ∷ []) s ∙ rw (h, same_self (c ∷ t)) refl

leave-selected : (p : Text) (s : KeyDisplay) → (leave p s).selected ≡ s.selected
leave-selected [] s = refl
leave-selected (c ∷ t) s = refl

enter-watched :
    (type : TypeName) (key : Text) (s : KeyDisplay)
    → s.selected ≡ key
    → watched s ≡ []
    → IsWatching (after_select type key (enter key s))
unfolding watched_after on_metadata Sets.insert Sets.has
enter-watched type [] s e h = (sym e, h)
enter-watched type (c ∷ t) s e h = (
  sym e,
  watched_after-append (s.asked ++ (metadata (c ∷ t) ∷ []))
        (value s.selected ∷ watch s.selected ∷ []) []
      ∙ (ap (λ keys. Sets.insert keys s.selected) (asks-watched (metadata (c ∷ t) ∷ []) s ∙ h)
          ∙ ap (λ k. k ∷ []) e),
)

-- A visit, from a display that watches what it shows.
visit_one-IsWatching :
    (type : TypeName) (key : Text) (s : KeyDisplay)
    → IsWatching s
    → IsWatching (after_select type key (select key s))
unfolding select on_metadata
visit_one-IsWatching type key s (prev, seen) =
    enter-watched type key _ (leave-selected s.previous _) (leave-watched s.previous _ seen)

visit-IsWatching :
    (visits : List (Text × TypeName)) (s : KeyDisplay) → IsWatching s → IsWatching (visit visits s)
unfolding visit
visit-IsWatching [] s h = h
visit-IsWatching ((key, type) ∷ visits) s h =
    visit-IsWatching visits _ (visit_one-IsWatching type key s h)

full_apart : (c : ℕ) (t : Text) → ((c ∷ t) == []) ≡ false
full_apart c t = unfold same_list in refl

-- The empty key, once watched, is never left.
abbrev WatchesEmpty : KeyDisplay → Type 0
WatchesEmpty s = Sets.has (watched s) [] ≡ true

leave-WatchesEmpty : (p : Text) (s : KeyDisplay) → WatchesEmpty s → WatchesEmpty (leave p s)
unfolding watched_after
leave-WatchesEmpty [] s h = h
leave-WatchesEmpty (c ∷ t) s h =
    ap (λ keys. Sets.has keys []) (asks-watched (unwatch (c ∷ t) ∷ []) s)
    ∙ (has-delete (watched s) (c ∷ t) [] ∙ ground (arith, full_apart c t, h))

enter-WatchesEmpty :
    (type : TypeName) (key : Text) (s : KeyDisplay)
    → WatchesEmpty s
    → WatchesEmpty (after_select type key (enter key s))
unfolding watched_after on_metadata
enter-WatchesEmpty type [] s h = h
enter-WatchesEmpty type (c ∷ t) s h =
    ap (λ keys. Sets.has keys [])
      (watched_after-append (s.asked ++ (metadata (c ∷ t) ∷ []))
          (value s.selected ∷ watch s.selected ∷ []) []
        ∙ ap (λ keys. Sets.insert keys s.selected) (asks-watched (metadata (c ∷ t) ∷ []) s))
    ∙ (has-insert (watched s) s.selected [] ∙ ground (arith, h))

-- The reply to the metadata of a display that is closed.
closed-WatchesEmpty :
    (type : TypeName) (s : KeyDisplay) → s.selected ≡ [] → WatchesEmpty (on_metadata type s)
unfolding watched_after on_metadata
closed-WatchesEmpty type s e =
    ap (λ keys. Sets.has keys [])
      (watched_after-append s.asked (value s.selected ∷ watch s.selected ∷ []) [])
    ∙ (has-insert (watched s) s.selected []
        ∙ ap (λ k. k == [] || Sets.has (watched s) []) e
        ∙ ground (arith, same_self []))

visit-WatchesEmpty :
    (visits : List (Text × TypeName)) (s : KeyDisplay)
    → WatchesEmpty s
    → WatchesEmpty (visit visits s)
unfolding visit select on_metadata
visit-WatchesEmpty [] s h = h
visit-WatchesEmpty ((key, type) ∷ visits) s h =
    visit-WatchesEmpty visits _ (enter-WatchesEmpty type key _ (leave-WatchesEmpty s.previous _ h))

-- While each key that is selected stays so until its metadata come, the display watches the key that it
-- shows and no other, and nothing once it is closed. If it is closed before the metadata of a key come, it
-- watches the empty key from then on, whatever is selected and closed later.
pub visit-watched :
    (visits : List (Text × TypeName)) (s : KeyDisplay) (key : Text) (type : TypeName)
    → IsWatching s
    → IsWatching (visit visits s)
      × (Sets.has (watched (visit visits (on_metadata type (select [] (select key s))))) [] ≡ true)
visit-watched visits s key type h = (
  visit-IsWatching visits s h,
  visit-WatchesEmpty visits _ (
      closed-WatchesEmpty type (select [] (select key s))
        (unfold select in leave-selected (select key s).previous _)),
)
