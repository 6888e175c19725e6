-- ===== src/Compliance/Items.antt =====
-- How the checks of the program fill in an item of internal/compliance/types.go: first the literal,
-- whose status is Go's empty string, then the status and the text.
use cloudflared_fips.Prelude.{String, List, [], ◌∷◌, Bool, true, false}
use cloudflared_fips.Compliance.{Status, other, ChecklistItem}

abbrev pub unset :
    String → String → String → String → String → String → String → String → ChecklistItem
unset id name severity method what why remediation nist_ref = record {
  id = id;
  name = name;
  status = other "";
  severity = severity;
  verification_method = method;
  what = what;
  why = why;
  remediation = remediation;
  nist_ref = nist_ref;
}

-- `item.Status = …; item.What = …`
abbrev pub mark : Status → String → ChecklistItem → ChecklistItem
mark status what item = record item { status = status; what = what }

-- `item.Status = …`
abbrev pub mark_status : Status → ChecklistItem → ChecklistItem
mark_status status item = record item { status = status }

abbrev pub is_empty {ℓ} : {A : Type ℓ} → List A → Bool
is_empty [] = true
is_empty (_ ∷ _) = false
