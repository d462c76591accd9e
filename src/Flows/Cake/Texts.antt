-- ===== src/Flows/Cake/Texts.antt =====
-- The texts of `processar_encomenda`, app/services/encomendas.py.
pub mod Lines
pub mod Closing
