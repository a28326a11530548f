-- ===== src/Json.antt =====
-- JSON values and their texts: `JSON.stringify`, and `canonicalJson` of audit/audit-service.ts.
-- Numbers are the natural numbers, the only ones that the program puts into a digest.
pub mod Printer
pub mod Scan
pub mod Show
pub mod Unique
pub mod Canonical
mod Tests
use Prim.Native.Nat.{ℕ}
use Prim.Native.String.{String}
use mathlib.Core.Bool.{Bool}

mutual
  pub data Json : Type 0 where
    null : Json
    bool : Bool → Json
    num : ℕ → Json
    str : String → Json
    arr : Items → Json
    obj : Fields → Json

  pub data Items : Type 0 where
    nil : Items
    cons : Json → Items → Items

  pub data Fields : Type 0 where
    end : Fields
    field : String → Json → Fields → Fields
