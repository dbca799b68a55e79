-- ===== src/Cmdb/Types.antt =====
-- internal/cmdb/ticket_types.go: tickets and System references as the client hands them over.
use secarch_tickets.Base.{ℕ, Option, List, Text, codes}

-- An instant, in nanoseconds since Go's zero time.
abbrev pub Time : Type 0
Time = ℕ

-- A Go string slice: nil is a value of its own.
abbrev pub Slice : Type 0
Slice = Option (List Text)

pub record Ticket : Type 0 where
  pub assignee : Option Text
  pub cmdb_system_name : Slice
  pub cmdb_system_key : Text
  pub cmdb_system_label : Text
  pub department : Text
  pub ticket_created_at : Time
  pub reporter : Text
  pub ticket_closed_at : Option Time
  pub summary : Text
  pub ticket_number : Text

pub record SystemReference : Type 0 where
  pub key : Text
  pub name : Text

abbrev pub unassigned_department : Text
unassigned_department = codes "Unassigned"
