-- ===== src/Tests.antt =====
-- Concrete inputs: the parameters with values that compute, and a small database, with the runs on them.
mod Answers
mod Control
mod Systems
mod Tables
mod Login
mod SignIn
mod Settings
mod Web
mod Application
mod Statistics
mod Departments
mod Flights
mod Queue
mod Requests
mod Synchronization
use secarch_tickets.Base.{
  ℕ, zero, suc, ◌+◌, ◌*◌, ◌/◌, ◌^◌, ◌≤◌, ◌<◌, ◌≡◌, refl, arith, Text, codes, some, none, List, [],
  ◌∷◌, true, false, ◌==◌, nat_eq, if◌then◌else◌, is_empty, ascii_upper, is_upper, CaseTables, map,
}
use secarch_tickets.Base.Int.{pos}
use secarch_tickets.Base.Floats.{Floats, second}
use secarch_tickets.Cmdb.Types.{Ticket}
use secarch_tickets.Calendar.{Date}
use secarch_tickets.Access.{TicketAccess}
use secarch_tickets.Store.{Row, UpdateRow, Database}
use secarch_tickets.Store.Persist.{Server, committed}

abbrev upper_of : ℕ → ℕ
upper_of c = if c == 0x17F then 0x53 else ascii_upper c

abbrev lower_of : ℕ → ℕ
lower_of c = if is_upper c then c + 32 else c

pub upper_of-ascii : (c : ℕ) → c < 128 → upper_of c ≡ ascii_upper c
upper_of-ascii c h = ground arith

-- A locale that knows the letters of ASCII only.
instance abbrev pub ascii : CaseTables
ascii = record {
  upper = upper_of;
  lower = lower_of;
  sql_lower = map lower_of;
  upper_ascii = upper_of-ascii;
  upper_long_s = refl;
  upper_kelvin = refl;
}

-- Exact arithmetic.
instance abbrev pub exact : Floats
exact = record {
  scaled = λ d b e. pos (d * b ^ e);
  ceil_seconds = λ d. (d + 999_999_999) / second;
  scaled_exact = λ d b e h. refl;
  ceil_exact = λ d h. refl;
  ceil_positive = λ d h. omega arith;
}

abbrev pub ticket : Ticket
ticket = record {
  assignee = none;
  cmdb_system_name = some (codes "Ledger (sys-7)" ∷ []);
  cmdb_system_key = codes "SYS-7";
  cmdb_system_label = codes "Ledger";
  department = codes "Payments";
  ticket_created_at = 5000;
  reporter = codes "Ann";
  ticket_closed_at = none;
  summary = codes "Review";
  ticket_number = codes "SEC-1";
}

abbrev pub row : Row
row = record {
  id = 1;
  ticket_number = codes "SEC-1";
  summary = codes "Review";
  reporter = codes "Ann ";
  assignee = none;
  cmdb_system_name = none;
  cmdb_system_key = codes "SYS-7";
  department = codes "Audit";
  ticket_created_at = 5000;
  ticket_closed_at = none;
  expected_date = record { year = 2026; month = 3; day = 31 };
  created_at = 6000;
  updated_at = 6000;
}

abbrev pub note : UpdateRow
note = record { id = 1; ticket_id = 1; content = codes "asked"; created_at = 7000 }

abbrev pub database : Database
database = record {
  tickets = row ∷ [];
  updates = note ∷ [];
  next_ticket_id = 2;
  next_update_id = 2;
}

abbrev pub april : Date
april = record { year = 2026; month = 4; day = 30 }

abbrev pub works : Server
works = record { begin = none; exec = λ i. none; commit = committed }

abbrev pub ann : TicketAccess
ann = record { all = false; reporter = codes " ann" }
