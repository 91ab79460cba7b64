-- ===== src/Command/Parts.antt =====
-- What the orders of the management command read of a page and how they print a value of it.
use spidercheck.Prelude.{
  ℕ, zero, suc, List, [], ◌∷◌, ◌++◌, none, some, Text, codes, keep, leb, ◌==◌,
}
use spidercheck.Results.{Outcome}
use spidercheck.Rows.{order_by, first_row}
use spidercheck.Models.{Page, Link, Value, Db}
use spidercheck.Tables.{has_id}
use spidercheck.Sites.Counts.{text_leb}
use spidercheck.Pages.{outgoing_links, incoming_links}
use spidercheck.Console.{text, Printed, line}
use spidercheck.Pages.{row_or_raise}

-- `page.values.all()`, in the order of the model.
unfoldable pub values_of : Page → Db → List Value
unfolding text_leb
values_of page db =
    order_by (λ v w. text_leb v.name w.name) (keep (λ v. v.page == page.id_page) db.values)

unfoldable pub page_at : ℕ → Db → Outcome Page
unfolding row_or_raise
page_at i db = row_or_raise (first_row (keep (has_id i) db.pages))

-- When the page of a key was created; the model orders links by it.
created_of : Db → ℕ → ℕ
created_of db i = elim (first_row (keep (has_id i) db.pages)) [ none ↦ 0 | some p ↦ p.created_at ]

unfoldable pub outgoing_in_order : Page → Db → List Link
unfolding created_of
outgoing_in_order page db =
    order_by (λ l m. leb (created_of db l.to_page) (created_of db m.to_page))
      (outgoing_links page db)

unfoldable pub incoming_in_order : Page → Db → List Link
unfolding created_of
incoming_in_order page db =
    order_by (λ l m. leb (created_of db l.from_page) (created_of db m.from_page))
      (incoming_links page db)

-- `f"{text:<width}"`
pad : ℕ → Text → Text
pad zero s = s
pad (suc n) [] = b' ' ∷ pad n []
pad (suc n) (c ∷ s) = c ∷ pad n s

unfoldable pub value_line : Text → ℕ → Value → Printed
unfolding pad
value_line lead width v = line (text (lead ++ (pad width v.name ++ (codes " : " ++ v.value))) ∷ [])
