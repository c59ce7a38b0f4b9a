-- ===== src/AddressList/Book.antt =====
-- 01DataStruct/Project/ADDRESS_LIST: the buffers of the entries, through the dialogues.
use demo_class.Common.{List, [], ◌∷◌}
use demo_class.AddressList.{LinkMan}
use demo_class.AddressList.Fields.{IsEntry, IsBlock}

abbrev pub IsBook : List LinkMan → Type 0
IsBook [] = Unit
IsBook (e ∷ es) = IsEntry e × IsBook es

abbrev pub AreBlocks : List LinkMan → Type 0
AreBlocks [] = Unit
AreBlocks (e ∷ es) = IsBlock e × AreBlocks es
