-- ===== src/Incident/Names.antt =====
-- `IncidentState.getName()`: the database status computed from the class name.
use campusops.Common.{
  ℕ, ◌-◌, ◌≡◌, refl, Bool, true, false, ◌&&◌, [], ◌∷◌, map, leb, ◌==◌, if◌then◌else◌,
}
use campusops.Common.Text.{Text, codes, text_eq}
use campusops.Incident.{
  IncidentState, open_state, in_progress_state, resolved_state, escalated_state, reopened_state,
}
use campusops.Incident.States.{class_name}

abbrev is_lower : ℕ → Bool
is_lower c = leb b'a' c && leb c b'z'

abbrev is_upper : ℕ → Bool
is_upper c = leb b'A' c && leb c b'Z'

-- The rest of the text after a prefix that it starts with.
strip_prefix : Text → Text → Text × Bool
strip_prefix [] s = (s, true)
strip_prefix (c ∷ p) [] = ([], false)
strip_prefix (c ∷ p) (d ∷ s) = let r = strip_prefix p s in if c == d then r else (d ∷ s, false)

-- `.replace(pattern, '')` with a string pattern: the first occurrence goes.
remove_first : Text → Text → Text
unfolding strip_prefix
remove_first p [] = []
remove_first p (c ∷ s) =
    let (rest, found) = strip_prefix p (c ∷ s) in
    let later = c ∷ remove_first p s in if found then rest else later

-- `.replace(/([a-z])([A-Z])/g, '$1_$2')`
split_camel : Text → Text
split_camel [] = []
split_camel (c ∷ []) = c ∷ []
split_camel (c ∷ d ∷ s) =
    let rest = split_camel (d ∷ s) in if is_lower c && is_upper d then c ∷ b'_' ∷ rest else c ∷ rest

-- `.toUpperCase()` on ASCII
abbrev upper : ℕ → ℕ
upper c = if is_lower c then c - 32 else c

unfoldable pub get_name : IncidentState → Text
unfolding remove_first split_camel
get_name s = map upper (split_camel (remove_first (codes "State") (codes (class_name s))))

-- `STATE_MAP[status] ?? STATE_MAP['OPEN']` of the repository, where `CLOSED` reads as resolved.
unfoldable pub state_map : Text → IncidentState
unfolding text_eq
state_map status =
    if text_eq status (codes "OPEN")
    then open_state
    else if text_eq status (codes "IN_PROGRESS")
    then in_progress_state
    else if text_eq status (codes "RESOLVED")
    then resolved_state
    else if text_eq status (codes "ESCALATED")
    then escalated_state
    else if text_eq status (codes "REOPENED")
    then reopened_state
    else if text_eq status (codes "CLOSED")
    then resolved_state
    else open_state

-- The state that the repository rebuilds from the status that a state object writes is that state.
pub state_map-get_name : (s : IncidentState) → state_map (get_name s) ≡ s
unfolding state_map get_name
state_map-get_name open_state = refl
state_map-get_name in_progress_state = refl
state_map-get_name resolved_state = refl
state_map-get_name escalated_state = refl
state_map-get_name reopened_state = refl

get_name_in_progress : get_name in_progress_state ≡ codes "IN_PROGRESS"
unfolding get_name
get_name_in_progress = refl
