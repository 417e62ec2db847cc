-- ===== src/Products/Labels.antt =====
-- The labels of the products' pages (web/src/pages/ProductsPage.tsx and ProductFormPage.tsx), each with
-- its meaning in English.
use radif.Prelude.{Text, text}

-- active of
abbrev pub active_of : Text
active_of = text " \u{641}\u{639}\u{627}\u{644} \u{627}\u{632} "

-- products
abbrev pub products_count_label : Text
products_count_label = text " \u{645}\u{62d}\u{635}\u{648}\u{644}"

-- make a product
abbrev pub make_product_label : Text
make_product_label = text "\u{633}\u{627}\u{62e}\u{62a} \u{645}\u{62d}\u{635}\u{648}\u{644}"

-- a new product
abbrev pub new_product_label : Text
new_product_label = text "\u{645}\u{62d}\u{635}\u{648}\u{644} \u{62c}\u{62f}\u{6cc}\u{62f}"

-- archived ones
abbrev pub archived_heading : Text
archived_heading =
    text
      "\u{628}\u{627}\u{6cc}\u{6af}\u{627}\u{646}\u{6cc}\u{200c}\u{634}\u{62f}\u{647}\u{200c}\u{647}\u{627}"

-- edit
abbrev pub edit_label : Text
edit_label = text "\u{648}\u{6cc}\u{631}\u{627}\u{6cc}\u{634}"

-- archive
abbrev pub archive_label : Text
archive_label = text "\u{628}\u{627}\u{6cc}\u{6af}\u{627}\u{646}\u{6cc}"

-- activate again
abbrev pub activate_again_label : Text
activate_again_label =
    text
      "\u{641}\u{639}\u{627}\u{644}\u{200c}\u{633}\u{627}\u{632}\u{6cc} \u{62f}\u{648}\u{628}\u{627}\u{631}\u{647}"

-- back to the products
abbrev pub back_to_products : Text
back_to_products =
    text
      "\u{628}\u{627}\u{632}\u{6af}\u{634}\u{62a} \u{628}\u{647} \u{645}\u{62d}\u{635}\u{648}\u{644}\u{200c}\u{647}\u{627}"

-- a new product
abbrev pub new_product_title : Text
new_product_title = text "\u{645}\u{62d}\u{635}\u{648}\u{644} \u{62a}\u{627}\u{632}\u{647}"

-- edit the product
abbrev pub edit_product_title : Text
edit_product_title =
    text "\u{648}\u{6cc}\u{631}\u{627}\u{6cc}\u{634} \u{645}\u{62d}\u{635}\u{648}\u{644}"

-- save the changes
abbrev pub save_changes_label : Text
save_changes_label =
    text "\u{630}\u{62e}\u{6cc}\u{631}\u{647} \u{62a}\u{63a}\u{6cc}\u{6cc}\u{631}\u{627}\u{62a}"

-- being prepared
abbrev pub preparing_label : Text
preparing_label =
    text
      "\u{62f}\u{631} \u{62d}\u{627}\u{644} \u{622}\u{645}\u{627}\u{62f}\u{647}\u{200c}\u{633}\u{627}\u{632}\u{6cc}…"

-- finish the crop
abbrev pub finish_crop_label : Text
finish_crop_label = text "\u{62b}\u{628}\u{62a} \u{628}\u{631}\u{634}"

-- change and crop the picture
abbrev pub change_crop_label : Text
change_crop_label =
    text
      "\u{62a}\u{63a}\u{6cc}\u{6cc}\u{631} \u{648} \u{628}\u{631}\u{634} \u{62a}\u{635}\u{648}\u{6cc}\u{631}"

-- choose and crop a picture
abbrev pub pick_crop_label : Text
pick_crop_label =
    text
      "\u{627}\u{646}\u{62a}\u{62e}\u{627}\u{628} \u{648} \u{628}\u{631}\u{634} \u{62a}\u{635}\u{648}\u{6cc}\u{631}"

-- back to the current picture
abbrev pub back_to_current : Text
back_to_current =
    text
      "\u{628}\u{627}\u{632}\u{6af}\u{634}\u{62a} \u{628}\u{647} \u{62a}\u{635}\u{648}\u{6cc}\u{631} \u{641}\u{639}\u{644}\u{6cc}"
