-- ===== src/Ctype/Tests.antt =====
-- The classes of characters at the letter z.
use jkos.Base.Int.{pos}
use jkos.Ctype.Classes.{Classified, classes_lem}

classes_lem_example : Classified (pos 122)
classes_lem_example = classes_lem (pos 122)
