-- ===== src/Tests/Payloads.antt =====
-- A form of payload that is read back for every job.
use Prim.Native.String.{String, [], ◌∷◌}
use skills.Prelude.{◌≡◌, refl, Option, some, if◌then◌else◌}
use skills.Prelude.Strings.{same_char}
use skills.Environment.{EmailJobPayload}

-- A text with a dash before each of its characters and a dot after them, and what follows it.
unfoldable pub quoted : String → String → String
quoted [] rest = "." ∷ rest
quoted (c ∷ s) rest = "-" ∷ (c ∷ quoted s rest)

unfoldable pub quoted_part : String → String × String
quoted_part [] = ([], [])
quoted_part (d ∷ []) = ([], [])
quoted_part (d ∷ (c ∷ s)) =
    let (part, rest) = quoted_part s in if same_char d "." then ([], c ∷ s) else (c ∷ part, rest)

quoted_part-quoted :
    (s t rest : String) → quoted_part (quoted s (quoted t rest)) ≡ (s, quoted t rest)
unfolding quoted_part quoted
quoted_part-quoted [] [] rest = refl
quoted_part-quoted [] (c ∷ t) rest = refl
quoted_part-quoted (c ∷ s) t rest = rw (quoted_part-quoted s t rest) refl

unfoldable pub marshal : EmailJobPayload → String
marshal job = quoted job.notification_id (quoted job.email (quoted job.request_id (quoted "" "")))

unfoldable pub unmarshal : String → Option EmailJobPayload
unmarshal s =
    let (id, s1) = quoted_part s in
    let (email, s2) = quoted_part s1 in
    let (request_id, _) = quoted_part s2 in
    some (record { notification_id = id; email = email; request_id = request_id })

pub unmarshal-marshal : (job : EmailJobPayload) → unmarshal (marshal job) ≡ some job
unfolding unmarshal marshal
unmarshal-marshal job =
    rw
      (
        quoted_part-quoted job.notification_id job.email (quoted job.request_id (quoted "" "")),
        quoted_part-quoted job.email job.request_id (quoted "" ""),
        quoted_part-quoted job.request_id "" "",
      )
      refl
